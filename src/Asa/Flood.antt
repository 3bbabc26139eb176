-- ===== src/Asa/Flood.antt =====
-- The flood fill ends, and takes each cell that it visits exactly once.
use ego_touch_rev.Prelude.{
  ℕ, zero, suc, ◌+◌, ◌-◌, ◌*◌, ◌<◌, ◌≤◌, ◌≡◌, refl, arith, List, [], ◌∷◌, ◌++◌, Bool, true, false,
  ◌&&◌, ltb, some, length, get_or, set, All, length-append,
}
use ego_touch_rev.Prelude.Int.{ℤ, ltb_ℤ}
use ego_touch_rev.Asa.{Detector, cell, is_peak, visit, expand, flood, flood_fill}

-- The cells that are not visited.
pub unvisited : List Bool → ℕ
unvisited [] = 0
unvisited (true ∷ vs) = unvisited vs
unvisited (false ∷ vs) = suc (unvisited vs)

unvisited-set :
    (vs : List Bool) (i : ℕ)
    → get_or vs i true ≡ false
    → unvisited (set vs i true) + 1 ≡ unvisited vs
unfolding unvisited
unvisited-set [] i h = ground (arith, h)
unvisited-set (true ∷ vs) zero h = ground (arith, h)
unvisited-set (false ∷ vs) zero h = omega arith
unvisited-set (true ∷ vs) (suc i) h = unvisited-set vs i h
unvisited-set (false ∷ vs) (suc i) h = omega (arith, unvisited-set vs i h)

unvisited-bound : (vs : List Bool) → unvisited vs ≤ length vs
unfolding unvisited
unvisited-bound [] = omega arith
unvisited-bound (true ∷ vs) = omega (arith, unvisited-bound vs)
unvisited-bound (false ∷ vs) = omega (arith, unvisited-bound vs)

and-left : (a b : Bool) → (a && b) ≡ true → a ≡ true
and-left true b h = refl
and-left false b h = h

All-append : {A : Type 0} (P : A → Type 0) (xs ys : List A) → All P xs → All P ys → All P (xs ++ ys)
All-append P [] ys h k = k
All-append P (x ∷ xs) ys (h, hs) k = (h, All-append P xs ys hs k)

-- Cells of the 9x9 grid above the threshold.
abbrev pub IsSignal : Detector → List ℤ → ℕ × ℕ → Type 0
IsSignal cfg grid (r, c) = (r < 9) × (c < 9) × (ltb_ℤ cfg.noise_threshold (cell grid r c) ≡ true)

module _ (cfg : Detector) (grid : List ℤ) where
  -- What each step of the fill keeps: the cells that are neither visited nor behind the stack, and that
  -- the stack holds signal cells only.
  pub record Moves (s s' : List Bool × List (ℕ × ℕ)) : Type 0 where
    pub count : unvisited s'.0 + length s'.1 ≡ unvisited s.0 + length s.1
    pub signals : All (IsSignal cfg grid) s.1 → All (IsSignal cfg grid) s'.1

  visit-Moves :
      (inside : Bool) (r c : ℕ) (s : List Bool × List (ℕ × ℕ))
      → (inside ≡ true → (r < 9) × (c < 9))
      → Moves s (visit cfg grid inside r c s)
  unfolding visit
  visit-Moves inside r c (visited, stack) bounds = ground (arith, unvisited-set visited (9 * r + c))

  then-Moves : {s s1 s2 : List Bool × List (ℕ × ℕ)} → Moves s s1 → Moves s1 s2 → Moves s s2
  then-Moves m m' = record {
    count = omega (arith, m.count, m'.count);
    signals = λ h. m'.signals (m.signals h);
  }

  below : (n : ℕ) → ltb n 8 ≡ true → n + 1 < 9
  below n h = ground arith

  peak-high :
      (r c : ℕ) → is_peak cfg grid r c ≡ true → ltb_ℤ cfg.noise_threshold (cell grid r c) ≡ true
  unfolding is_peak
  peak-high r c h = and-left (ltb_ℤ cfg.noise_threshold (cell grid r c)) _ h

  expand-Moves :
      (r c : ℕ) (s : List Bool × List (ℕ × ℕ)) → r < 9 → c < 9 → Moves s (expand cfg grid r c s)
  unfolding expand
  expand-Moves r c s hr hc =
      let s1 = visit cfg grid (ltb 0 r) (r - 1) c s in
      let s2 = visit cfg grid (ltb r 8) (r + 1) c s1 in
      let s3 = visit cfg grid (ltb 0 c) r (c - 1) s2 in
      then-Moves (visit-Moves (ltb 0 r) (r - 1) c s (λ h. omega arith)) (
        then-Moves (visit-Moves (ltb r 8) (r + 1) c s1 (λ h. (below r h, hc))) (
          then-Moves (visit-Moves (ltb 0 c) r (c - 1) s2 (λ h. omega arith))
            (visit-Moves (ltb c 8) r (c + 1) s3 (λ h. (hr, below c h)))))

  -- How a fill ends: every cell that was open or on the stack is either still open or in the region.
  pub record Filled (s : List Bool × List (ℕ × ℕ)) (region : List (ℕ × ℕ))
      (s' : List Bool × List (ℕ × ℕ)) : Type 0 where
    pub once : unvisited s'.0 + length s'.1 ≡ unvisited s.0 + length s.1 + length region
    pub all_signals :
        All (IsSignal cfg grid) s.1 → All (IsSignal cfg grid) region → All (IsSignal cfg grid) s'.1

  flood-total :
      (n : ℕ) (s : List Bool × List (ℕ × ℕ)) (region : List (ℕ × ℕ))
      → All (IsSignal cfg grid) s.1
      → unvisited s.0 + length s.1 < n
      → (s' : List Bool × List (ℕ × ℕ)) × (flood cfg grid n s region ≡ some s') × Filled s region s'
  unfolding flood
  flood-total zero s region signal enough = absurd (omega arith)
  flood-total (suc n) (visited, []) region signal enough =
      ((visited, region), refl, record { once = omega arith; all_signals = λ h k. k })
  flood-total (suc n) (visited, (r, c) ∷ stack) region ((hr, hc, high), signal) enough =
      let moves = expand-Moves r c (visited, stack) hr hc in
      let (s', e, filled) =
        flood-total n (expand cfg grid r c (visited, stack)) (region ++ (r, c) ∷ [])
          (moves.signals signal) (omega (arith, moves.count)) in
      (
        s',
        e,
        record {
          once = omega (arith, filled.once, moves.count, length-append region ((r, c) ∷ []));
          all_signals = λ h k.
              filled.all_signals (moves.signals signal)
                (All-append (IsSignal cfg grid) region ((r, c) ∷ []) k ((hr, hc, high), tt));
        },
      )

  -- A fill that starts at a peak that is not visited ends within the 82 rounds, for any 81 cells: its
  -- region holds cells of the grid above the threshold only, and it has as many of them as cells have
  -- become visited, at most 81.
  pub flood_fill_terminates :
      (visited : List Bool) (r c : ℕ)
      → length visited ≡ 81
      → r < 9
      → c < 9
      → get_or visited (9 * r + c) true ≡ false
      → is_peak cfg grid r c ≡ true
      → (s : List Bool × List (ℕ × ℕ)) × (flood_fill cfg grid visited r c ≡ some s)
        × All (IsSignal cfg grid) s.1
        × (unvisited s.0 + length s.1 ≡ unvisited visited)
        × (length s.1 ≤ 81)
  unfolding flood_fill
  flood_fill_terminates visited r c size hr hc unseen peak =
      let i = 9 * r + c in
      let one = unvisited-set visited i unseen in
      let bound = unvisited-bound visited in
      let signal : IsSignal cfg grid (r, c) = (hr, hc, peak-high r c peak) in
      let (s, e, filled) =
        flood-total 82 (set visited i true, (r, c) ∷ []) [] (signal, tt)
          (omega (arith, one, bound, size)) in
      (
        s,
        e,
        filled.all_signals (signal, tt) tt,
        omega (arith, filled.once, one),
        omega (arith, filled.once, one, bound, size),
      )
