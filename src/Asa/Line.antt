-- ===== src/Asa/Line.antt =====
-- What FindLinePeak and FindPeak return.
use ego_touch_rev.Prelude.{
  ℕ, suc, ◌+◌, ◌<◌, ◌≡◌, ◌⊎◌, refl, sym, ap, ◌∙◌, arith, inl, inr, List, [], ◌∷◌, Bool, true, false,
  none, some, if◌then◌else◌, length, get_or, All, Bool-cases,
}
use ego_touch_rev.Prelude.Int.{ℤ, pos, ◌≤ℤ◌, ltb_ℤ}
use ego_touch_rev.Asa.{best_index, find_line_peak}

-- What the loop returns: the best so far or a later one, which no value exceeds.
record Best (ys : List ℤ) (i best : ℕ) (value : ℤ) (r : ℕ × ℤ) : Type 0 where
  from :
      ((r.0 ≡ best) × (r.1 ≡ value))
      ⊎ ((k : ℕ) × (r.0 ≡ i + k) × (k < length ys) × (get_or ys k (pos 0) ≡ r.1))
  above : value ≤ℤ r.1
  all_below : All (λ y. y ≤ℤ r.1) ys

-- The best of the values behind `y`, as one of the values from `y` on.
next-Best :
    (y : ℤ) (ys : List ℤ) (i best b : ℕ) (value v : ℤ) (r : ℕ × ℤ)
    → ((b ≡ best) × (v ≡ value)) ⊎ ((b ≡ i) × (v ≡ y))
    → value ≤ℤ v
    → y ≤ℤ v
    → Best ys (i + 1) b v r
    → Best (y ∷ ys) i best value r
next-Best y ys i best b value v r origin up high found = record {
  from = elim found.from [
    | inr (k, e, lt, g) ↦ inr (suc k, omega (arith, e), omega (arith, lt), g)
    | inl (e, e') ↦ elim origin [
      | inl (o, o') ↦ inl (e ∙ o, e' ∙ o')
      | inr (o, o') ↦ inr (0, omega (arith, e, o), omega arith, sym (e' ∙ o'))
    ]
  ];
  above = omega (arith, up, found.above);
  all_below = (omega (arith, high, found.above), found.all_below);
}

below-next : (x y : ℤ) → ltb_ℤ x y ≡ true → x ≤ℤ y
below-next x y h = ground arith

not-below : (x y : ℤ) → ltb_ℤ x y ≡ false → y ≤ℤ x
not-below x y h = ground arith

best_index-Best :
    (ys : List ℤ) (i best : ℕ) (value : ℤ) → Best ys i best value (best_index ys i best value)
unfolding best_index
best_index-Best [] i best value = record {
  from = inl (refl, refl);
  above = omega arith;
  all_below = tt;
}
best_index-Best (y ∷ ys) i best value = elim (Bool-cases (ltb_ℤ value y)) [
  | inl t ↦
      rw (t, best_index)
        (next-Best y ys i best i value y _ (inr (refl, refl)) (below-next value y t) (omega arith)
          (best_index-Best ys (i + 1) i y))
  | inr t ↦
      rw (t, best_index)
        (next-Best y ys i best best value value _ (inl (refl, refl)) (omega arith)
          (not-below value y t) (best_index-Best ys (i + 1) best value))
]

one-suc : {m k : ℕ} → m ≡ 1 + k → m ≡ suc k
one-suc e = omega (arith, e)

-- The best value stands at the best index.
at-Best :
    (x : ℤ) (xs : List ℤ) (r : ℕ × ℤ)
    → Best xs 1 0 x r
    → (r.0 < length (x ∷ xs)) × (get_or (x ∷ xs) r.0 (pos 0) ≡ r.1)
at-Best x xs r found = elim found.from [
  | inl (e, e') ↦ (omega (arith, e), rw (e, e') refl)
  | inr (k, e, lt, g) ↦ (omega (arith, e, lt), ap (λ n. get_or (x ∷ xs) n (pos 0)) (one-suc e) ∙ g)
]

picked : (t : Bool) (a b : ℕ) → (if t then some a else none) ≡ some b → (t ≡ true) × (a ≡ b)
picked t a b h = ground arith

not-picked : (t : Bool) (a : ℕ) → (if t then some a else none) ≡ none → t ≡ false
not-picked t a h = ground arith

eq-≤ : (a b : ℤ) → a ≡ b → a ≤ℤ b
eq-≤ a b e = rw e (omega arith)

All-≤ : (xs : List ℤ) (v w : ℤ) → v ≤ℤ w → All (λ y. y ≤ℤ v) xs → All (λ y. y ≤ℤ w) xs
All-≤ [] v w h k = tt
All-≤ (x ∷ xs) v w h (k, ks) = (omega (arith, h, k), All-≤ xs v w h ks)

-- FindLinePeak yields the index of a positive value that no value of the line exceeds; when it yields -1
-- no value is positive.
pub line_peak_is_maximal :
    (x : ℤ) (xs : List ℤ)
    → ((b : ℕ)
        → find_line_peak (x ∷ xs) ≡ some b
        → (b < length (x ∷ xs))
          × (ltb_ℤ (pos 0) (get_or (x ∷ xs) b (pos 0)) ≡ true)
          × All (λ y. y ≤ℤ get_or (x ∷ xs) b (pos 0)) (x ∷ xs))
      × (find_line_peak (x ∷ xs) ≡ none → All (λ y. y ≤ℤ pos 0) (x ∷ xs))
unfolding find_line_peak
line_peak_is_maximal x xs =
    let r = best_index xs 1 0 x in
    let found = best_index-Best xs 1 0 x in
    let (inside, same) = at-Best x xs r found in
    (
      (λ b h.
          let (t, e) = picked (ltb_ℤ (pos 0) r.1) r.0 b h in
          let v = get_or (x ∷ xs) b (pos 0) in
          let here : v ≡ r.1 = ap (λ n. get_or (x ∷ xs) n (pos 0)) (sym e) ∙ same in
          let up = eq-≤ r.1 v (sym here) in
          (
            omega (arith, inside, e),
            ap (ltb_ℤ (pos 0)) here ∙ t,
            (omega (arith, found.above, up), All-≤ xs r.1 v up found.all_below),
          )),
      (λ h.
          let low = not-below (pos 0) r.1 (not-picked (ltb_ℤ (pos 0) r.1) r.0 h) in
          (omega (arith, found.above, low), All-≤ xs r.1 (pos 0) low found.all_below)),
    )
