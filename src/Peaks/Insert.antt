-- ===== src/Peaks/Insert.antt =====
-- Peak_Insert and the scan: what the bounded list of peaks keeps.
use ego_touch_rev.Prelude.{
  ℕ, zero, suc, ◌+◌, ◌≤◌, ◌<◌, ◌≡◌, ◌⊎◌, inl, inr, refl, ◌∙◌, arith, List, [], ◌∷◌, ◌++◌, some,
  true, false, ltb, length, get_elem?, set, All, length-set, length-append, get_elem?-set_self,
  get_elem?-set_ne, All-append_one, All-set, All-imp, All-get_elem?, Bool-cases,
}
use mathlib.Core.Path.{subst}
use native.Mathlib.Decide.{ℕ_discrete}
use ego_touch_rev.Prelude.Int.{ℤ, ◌≤ℤ◌, ltb_ℤ}
use ego_touch_rev.Peaks.{Peak, weakest, insert_peak}

abbrev pub Apart : Peak → Peak → Type 0
Apart p q = p.r ≤ q.r + 1 → q.r ≤ p.r + 1 → p.c ≤ q.c + 1 → q.c ≤ p.c + 1 → ⊥

pub Apart-symm : (p q : Peak) → Apart p q → Apart q p
Apart-symm p q a h k l m = a k h m l

-- No two peaks of the list are neighbours.
abbrev pub Separate : List Peak → Type 0
Separate [] = Unit
Separate (p ∷ ps) = All (Apart p) ps × Separate ps

pub Separate-append_one :
    (ps : List Peak) (new : Peak) → Separate ps → All (Apart new) ps → Separate (ps ++ new ∷ [])
Separate-append_one [] new s a = (tt, tt)
Separate-append_one (p ∷ ps) new (b, s) (h, a) =
    (All-append_one (Apart p) ps b (Apart-symm new p h), Separate-append_one ps new s a)

pub Separate-set :
    (ps : List Peak) (i : ℕ) (new : Peak)
    → Separate ps
    → All (Apart new) ps
    → Separate (set ps i new)
Separate-set [] i new s a = s
Separate-set (p ∷ ps) zero new (b, s) (h, a) = (a, s)
Separate-set (p ∷ ps) (suc i) new (b, s) (h, a) =
    (All-set (Apart p) ps i b (Apart-symm new p h), Separate-set ps i new s a)

abbrev pub AtLeast : ℤ → Peak → Type 0
AtLeast low p = low ≤ℤ p.z

weakest-le : (ps : List Peak) (i best : ℕ) (low : ℤ) → (weakest ps i best low).1 ≤ℤ low
unfolding weakest
weakest-le [] i best low = omega arith
weakest-le (p ∷ ps) i best low =
    ground (arith, weakest-le ps (i + 1) i p.z, weakest-le ps (i + 1) best low)

weakest-AtLeast :
    (ps : List Peak) (i best : ℕ) (low : ℤ) → All (AtLeast (weakest ps i best low).1) ps
unfolding weakest
weakest-AtLeast [] i best low = tt
weakest-AtLeast (p ∷ ps) i best low = (
  ground (arith, weakest-le ps (i + 1) i p.z, weakest-le ps (i + 1) best low),
  weakest-AtLeast ps (i + 1) _ _,
)

-- The index is the one at the start, or that of an entry.
weakest_index :
    (ps : List Peak) (i best : ℕ) (low : ℤ)
    → (((weakest ps i best low).0 ≡ best) × ((weakest ps i best low).1 ≡ low))
      ⊎ ((k : ℕ) × (q : Peak) × ((weakest ps i best low).0 ≡ i + k)
          × (get_elem? ps k ≡ some q)
          × ((weakest ps i best low).1 ≡ q.z))
unfolding weakest
weakest_index [] i best low = inl (refl, refl)
weakest_index (p ∷ ps) i best low = elim (Bool-cases (ltb_ℤ p.z low)) [
  | inl t ↦
      rw (t, weakest)
        (elim (weakest_index ps (i + 1) i p.z) [
          | inl (e, f) ↦ inr (0, p, omega (arith, e), refl, f)
          | inr (k, q, e, g, f) ↦ inr (suc k, q, omega (arith, e), g, f)
        ])
  | inr t ↦
      rw (t, weakest)
        (elim (weakest_index ps (i + 1) best low) [
          | inl (e, f) ↦ inl (e, f)
          | inr (k, q, e, g, f) ↦ inr (suc k, q, omega (arith, e), g, f)
        ])
]

-- Insertion, with its two tests decided.
data Inserted (new : Peak) (ps : List Peak) : List Peak → Type 0 where
  behind : length ps < 20 → (out : List Peak) → out ≡ ps ++ new ∷ [] → Inserted new ps out
  replaced :
      (k : ℕ) (q : Peak) (out : List Peak)
      → get_elem? ps k ≡ some q
      → All (AtLeast q.z) ps
      → ltb_ℤ q.z new.z ≡ true
      → (length ps < 20 → ⊥)
      → out ≡ set ps k new
      → Inserted new ps out
  dropped :
      (out : List Peak)
      → All (AtLeast new.z) ps
      → (length ps < 20 → ⊥)
      → out ≡ ps
      → Inserted new ps out

-- The index that the loop ends with holds a peak whose signal no entry is below.
weakest_lem :
    (p : Peak) (ps : List Peak)
    → (q : Peak) × (get_elem? (p ∷ ps) (weakest ps 1 0 p.z).0 ≡ some q)
      × ((weakest ps 1 0 p.z).1 ≡ q.z)
weakest_lem p ps = elim (weakest_index ps 1 0 p.z) [
  | inl (e, f) ↦ (p, rw e refl, f)
  | inr (k, q, e, g, f) ↦
      let e' : (weakest ps 1 0 p.z).0 ≡ suc k = omega (arith, e) in (q, rw e' g, f)
]

above : (a b c : ℤ) → ltb_ℤ a b ≡ false → a ≤ℤ c → b ≤ℤ c
above a b c h k = ground arith

insert_peak-Inserted : (new : Peak) (ps : List Peak) → Inserted new ps (insert_peak new ps)
unfolding insert_peak
insert_peak-Inserted new [] = Inserted.behind (omega arith) _ refl
insert_peak-Inserted new (p ∷ ps) = elim (Bool-cases (ltb (length (p ∷ ps)) 20)) [
  | inl t ↦ rw t (Inserted.behind (ground arith) _ refl)
  | inr t ↦ elim (Bool-cases (ltb_ℤ (weakest ps 1 0 p.z).1 new.z)) [
    | inl u ↦
        let (q, g, f) = weakest_lem p ps in
        rw (t, u)
          (Inserted.replaced (weakest ps 1 0 p.z).0 q _ g
            (subst (λ z. All (AtLeast z) (p ∷ ps)) f
              (weakest-le ps 1 0 p.z, weakest-AtLeast ps 1 0 p.z))
            (subst (λ z. ltb_ℤ z new.z ≡ true) f u) (ground arith) refl)
    | inr u ↦
        rw (t, u)
          (Inserted.dropped _
            (
              above (weakest ps 1 0 p.z).1 new.z p.z u (weakest-le ps 1 0 p.z),
              All-imp (λ x h. above (weakest ps 1 0 p.z).1 new.z x.z u h) ps
                  (weakest-AtLeast ps 1 0 p.z),
            )
            (ground arith) refl)
  ]
]

module _ (new : Peak) (ps : List Peak) where
  All-Inserted :
      (P : Peak → Type 0) (out : List Peak) → Inserted new ps out → P new → All P ps → All P out
  All-Inserted P out (Inserted.behind h _ e) n a = rw e (All-append_one P ps a n)
  All-Inserted P out (Inserted.replaced k q _ g l u f e) n a = rw e (All-set P ps k a n)
  All-Inserted P out (Inserted.dropped _ l f e) n a = rw e a

  pub insert_peak-All : (P : Peak → Type 0) → P new → All P ps → All P (insert_peak new ps)
  insert_peak-All P = All-Inserted P _ (insert_peak-Inserted new ps)

  Separate-Inserted :
      (out : List Peak) → Inserted new ps out → Separate ps → All (Apart new) ps → Separate out
  Separate-Inserted out (Inserted.behind h _ e) s a = rw e (Separate-append_one ps new s a)
  Separate-Inserted out (Inserted.replaced k q _ g l u f e) s a = rw e (Separate-set ps k new s a)
  Separate-Inserted out (Inserted.dropped _ l f e) s a = rw e s

  pub insert_peak-Separate : Separate ps → All (Apart new) ps → Separate (insert_peak new ps)
  insert_peak-Separate = Separate-Inserted _ (insert_peak-Inserted new ps)

  length-Inserted : (out : List Peak) → Inserted new ps out → length ps ≤ 20 → length out ≤ 20
  length-Inserted out (Inserted.behind h _ e) k = rw (e, length-append ps (new ∷ [])) (omega arith)
  length-Inserted out (Inserted.replaced i q _ g l u f e) k =
      rw (e, length-set ps i new) (omega arith)
  length-Inserted out (Inserted.dropped _ l f e) k = rw e k

  pub length-insert_peak : length ps ≤ 20 → length (insert_peak new ps) ≤ 20
  length-insert_peak = length-Inserted _ (insert_peak-Inserted new ps)

-- A peak is in the list, or the list is full of peaks that are not weaker.
abbrev pub Kept : Peak → List Peak → Type 0
Kept p ps = ((k : ℕ) × (get_elem? ps k ≡ some p)) ⊎ ((length ps ≡ 20) × All (AtLeast p.z) ps)

get_elem?-append :
    (ps : List Peak) (k : ℕ) (new p : Peak)
    → get_elem? ps k ≡ some p
    → get_elem? (ps ++ new ∷ []) k ≡ some p
get_elem?-append [] k new p h = cc
get_elem?-append (q ∷ ps) zero new p h = h
get_elem?-append (q ∷ ps) (suc k) new p h = get_elem?-append ps k new p h

get_elem?-end : (ps : List Peak) (new : Peak) → get_elem? (ps ++ new ∷ []) (length ps) ≡ some new
get_elem?-end [] new = refl
get_elem?-end (q ∷ ps) new = get_elem?-end ps new

lt_length : (ps : List Peak) (k : ℕ) (p : Peak) → get_elem? ps k ≡ some p → k < length ps
lt_length [] k p h = cc
lt_length (q ∷ ps) zero p h = omega arith
lt_length (q ∷ ps) (suc k) p h = omega (arith, lt_length ps k p h)

le_of_ltb : (a b : ℤ) → ltb_ℤ a b ≡ true → a ≤ℤ b
le_of_ltb a b h = ground arith

le_trans : (a b c : ℤ) → a ≤ℤ b → b ≤ℤ c → a ≤ℤ c
le_trans a b c h k = omega arith

module _ (new : Peak) (ps : List Peak) (bound : length ps ≤ 20) where
  Inserted-Kept : (out : List Peak) → Inserted new ps out → Kept new out
  Inserted-Kept out (Inserted.behind h _ e) = inl (length ps, rw e (get_elem?-end ps new))
  Inserted-Kept out (Inserted.replaced k q _ g l u f e) =
      inl (k, rw e (get_elem?-set_self ps k new (lt_length ps k q g)))
  Inserted-Kept out (Inserted.dropped _ l f e) = inr (rw e (omega arith, l))

  -- The new peak is kept, or all twenty are at least as strong.
  pub insert_peak-Kept : Kept new (insert_peak new ps)
  insert_peak-Kept = Inserted-Kept _ (insert_peak-Inserted new ps)

  still_full :
      (low : ℤ) (k : ℕ) (q : Peak)
      → All (AtLeast low) ps
      → low ≤ℤ q.z
      → ltb_ℤ q.z new.z ≡ true
      → (length ps < 20 → ⊥)
      → (length (set ps k new) ≡ 20) × All (AtLeast low) (set ps k new)
  still_full low k q a h u f = (
    rw (length-set ps k new) (omega arith),
    All-set (AtLeast low) ps k a (le_trans low q.z new.z h (le_of_ltb q.z new.z u)),
  )

  Kept-Inserted : (p : Peak) (out : List Peak) → Inserted new ps out → Kept p ps → Kept p out
  Kept-Inserted p out (Inserted.behind h _ e) (inl (k, g)) =
      inl (k, rw e (get_elem?-append ps k new p g))
  Kept-Inserted p out (Inserted.behind h _ e) (inr (f, a)) = absurd (omega (arith, f))
  Kept-Inserted p out (Inserted.dropped _ l f e) kept = rw e kept
  Kept-Inserted p out (Inserted.replaced i q _ g l u f e) (inr (full, a)) =
      inr (rw e (still_full p.z i q a (All-get_elem? (AtLeast p.z) ps i a g) u f))
  Kept-Inserted p out (Inserted.replaced i q _ g l u f e) (inl (k, h)) = elim (ℕ_discrete i k) [
    | yes same ↦
        let here : p ≡ q = cc in
        inr (rw e (still_full p.z i q (rw here l) (rw here (omega arith)) u f))
    | no other ↦ inl (k, rw e (get_elem?-set_ne ps new other ∙ h))
  ]

  -- An insertion drops a peak only if twenty others are at least as strong.
  pub Kept-insert_peak : (p : Peak) → Kept p ps → Kept p (insert_peak new ps)
  Kept-insert_peak p = Kept-Inserted p _ (insert_peak-Inserted new ps)
