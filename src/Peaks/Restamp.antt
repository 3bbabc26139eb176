-- ===== src/Peaks/Restamp.antt =====
-- The numbering of the peaks changes nothing but their numbers and ages.
use mathlib.Core.Path.{subst}
use ego_touch_rev.Prelude.{
  ℕ, suc, ◌+◌, ◌≤◌, ◌≡◌, refl, sym, arith, List, [], ◌∷◌, Bool, Option, none, some, ltb, length,
  All, All-imp, Bool-cases, inl, inr, ap,
}
use ego_touch_rev.Prelude.Int.{ℤ, ◌≤ℤ◌}
use ego_touch_rev.Peaks.{Peak}
use ego_touch_rev.Peaks.Insert.{Apart, Separate, AtLeast}
use ego_touch_rev.Peaks.Track.{nearest, carry_id, match_peaks, number_peaks, assign_ids, cap_peaks}
use ego_touch_rev.Peaks.Filters.{Ascending, take-Ascending}

-- The peaks are the same but for their numbers and ages.
abbrev pub Restamped : List Peak → List Peak → Type 0
Restamped [] [] = Unit
Restamped [] (q ∷ qs) = ⊥
Restamped (p ∷ ps) [] = ⊥
Restamped (p ∷ ps) (q ∷ qs) = (q.r ≡ p.r) × (q.c ≡ p.c) × (q.z ≡ p.z) × Restamped ps qs

carry_id-cell :
    (prev : List Peak) (pk : Peak) (used : List Bool) (next : ℕ) (best : Option ℕ × ℕ)
    → ((carry_id prev pk used next best).0.r ≡ pk.r)
      × ((carry_id prev pk used next best).0.c ≡ pk.c)
      × ((carry_id prev pk used next best).0.z ≡ pk.z)
carry_id-cell prev pk used next (none, d) = (refl, refl, refl)
carry_id-cell prev pk used next (some j, d) = ground arith

match_peaks-Restamped :
    (prev ps : List Peak) (used : List Bool) (next : ℕ)
    → Restamped ps (match_peaks prev ps used next).0
unfolding match_peaks
match_peaks-Restamped prev [] used next = tt
match_peaks-Restamped prev (p ∷ ps) used next =
    let (r, c, z) = carry_id-cell prev p used next (nearest p prev used 0 none 9999) in
    (r, c, z, match_peaks-Restamped prev ps _ _)

number_peaks-Restamped : (ps : List Peak) (next : ℕ) → Restamped ps (number_peaks ps next).0
unfolding number_peaks
number_peaks-Restamped [] next = tt
number_peaks-Restamped (p ∷ ps) next = (refl, refl, refl, number_peaks-Restamped ps _)

pub assign_ids-Restamped :
    (prev ps : List Peak) (next : ℕ) → Restamped ps (assign_ids prev ps next).0
assign_ids-Restamped [] ps next = number_peaks-Restamped ps next
assign_ids-Restamped (q ∷ qs) ps next = match_peaks-Restamped (q ∷ qs) ps _ next

-- A property of a peak's cell and signal.
pub Restamped-All :
    (Q : ℕ → ℕ → ℤ → Type 0) (ps qs : List Peak)
    → Restamped ps qs
    → All (λ p. Q p.r p.c p.z) ps
    → All (λ p. Q p.r p.c p.z) qs
Restamped-All Q [] [] s a = tt
Restamped-All Q [] (q ∷ qs) s a = absurd s
Restamped-All Q (p ∷ ps) [] s a = absurd s
Restamped-All Q (p ∷ ps) (q ∷ qs) (r, c, z, s) (h, a) = (rw (r, c, z) h, Restamped-All Q ps qs s a)

pub Restamped-length : (ps qs : List Peak) → Restamped ps qs → length qs ≡ length ps
Restamped-length [] [] s = refl
Restamped-length [] (q ∷ qs) s = absurd s
Restamped-length (p ∷ ps) [] s = absurd s
Restamped-length (p ∷ ps) (q ∷ qs) (r, c, z, s) = ap suc (Restamped-length ps qs s)

Apart-cell : (p q x : Peak) → q.r ≡ p.r → q.c ≡ p.c → Apart p x → Apart q x
Apart-cell p q x e f a h k l m = a (omega arith) (omega arith) (omega arith) (omega arith)

pub Restamped-Separate : (ps qs : List Peak) → Restamped ps qs → Separate ps → Separate qs
Restamped-Separate [] [] s a = tt
Restamped-Separate [] (q ∷ qs) s a = absurd s
Restamped-Separate (p ∷ ps) [] s a = absurd s
Restamped-Separate (p ∷ ps) (q ∷ qs) (r, c, z, s) (h, a) = (
  Restamped-All (λ r' c' z'. q.r ≤ r' + 1 → r' ≤ q.r + 1 → q.c ≤ c' + 1 → c' ≤ q.c + 1 → ⊥) ps qs s
      (All-imp (λ x b. Apart-cell p q x r c b) ps h),
  Restamped-Separate ps qs s a,
)

pub Restamped-Ascending : (ps qs : List Peak) → Restamped ps qs → Ascending ps → Ascending qs
Restamped-Ascending [] [] s a = tt
Restamped-Ascending [] (q ∷ qs) s a = absurd s
Restamped-Ascending (p ∷ ps) [] s a = absurd s
Restamped-Ascending (p ∷ ps) (q ∷ qs) (r, c, z, s) (h, a) = (
  Restamped-All (λ r' c' z'. q.z ≤ℤ z') ps qs s (subst (λ low. All (AtLeast low) ps) (sym z) h),
  Restamped-Ascending ps qs s a,
)

pub cap_peaks-Ascending : (ps : List Peak) → Ascending ps → Ascending (cap_peaks ps)
unfolding cap_peaks
cap_peaks-Ascending ps a = elim (Bool-cases (ltb 20 (length ps))) [
  | inl t ↦ rw t (take-Ascending 20 ps a)
  | inr t ↦ rw t a
]
