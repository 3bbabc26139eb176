-- ===== src/Preprocessing/Cmf.antt =====
-- CMFProcessor.cpp: the common offset of a row or a column is taken away.
use mathlib.Core.Path.{subst}
use native.Mathlib.Decide.{ℕ_discrete}
use ego_touch_rev.Prelude.{
  ℕ, zero, suc, ◌+◌, ◌*◌, ◌/◌, ◌≤◌, ◌<◌, ◌≡◌, inl, inr, sym, ◌∙◌, ap, arith, Bool, true, not, ◌&&◌,
  ltb, lt→ltb, if◌then◌else◌, Bool-cases,
}
use ego_touch_rev.Prelude.Int.{
  ℤ, pos, negsuc, pos_part, neg_part, ◌+ℤ◌, ◌-ℤ◌, ◌≤ℤ◌, ltb_ℤ, quot, wrap16, to_int16, clamp_ℤ,
  IsInt16, wrap16-IsInt16,
}
use ego_touch_rev.Engine.{Heat}

pub data DimensionMode : Type 0 where
  off row_wise column_wise dual_dim : DimensionMode

pub record CmfSettings : Type 0 where
  pub enabled : Bool
  pub mode : DimensionMode
  pub exclusion_threshold : ℤ
  pub max_correction : ℤ

abbrev pub default_cmf : CmfSettings
default_cmf = record {
  enabled = true;
  mode = DimensionMode.row_wise;
  exclusion_threshold = pos 250;
  max_correction = pos 500;
}

-- The parts of a sum of `count` values `v`.
abbrev IsSum : ℤ → ℕ → ℤ → Type 0
IsSum v count sum = (pos_part sum ≡ count * pos_part v) × (neg_part sum ≡ count * neg_part v)

add-IsSum : (v : ℤ) (count : ℕ) (sum : ℤ) → IsSum v count sum → IsSum v (count + 1) (sum +ℤ v)
unfolding ◌+ℤ◌
add-IsSum (pos m) count sum (e, f) = (grind arith, grind arith)
add-IsSum (negsuc m) count sum (e, f) = (grind arith, grind arith)

module _ (cfg : CmfSettings) where
  abbrev pub is_background : ℤ → Bool
  is_background v = ltb_ℤ v cfg.exclusion_threshold && ltb_ℤ (pos 0 -ℤ cfg.exclusion_threshold) v

  -- The first loop over a line from index `x` on, with the cells that are left: the sum and the
  -- number of the background cells.
  unfoldable pub background : (ℕ → ℤ) → ℕ → ℕ → ℤ → ℕ → ℤ × ℕ
  background line zero x sum count = (sum, count)
  background line (suc n) x sum count =
      let on = is_background (line x) in
      background line n (x + 1) (if on then sum +ℤ line x else sum)
        (if on then count + 1 else count)

  unfoldable pub line_offset : ℤ × ℕ → ℤ
  unfolding quot wrap16 clamp_ℤ
  line_offset (sum, count) =
      clamp_ℤ (wrap16 (quot sum (pos count))) (wrap16 (pos 0 -ℤ cfg.max_correction))
        (wrap16 cfg.max_correction)

  -- The body of both loops over the lines, for a line of `n` cells.
  unfoldable pub correct_line : ℕ → (ℕ → ℤ) → ℕ → ℤ
  unfolding background line_offset wrap16
  correct_line n line x =
      let found = background line n 0 (pos 0) 0 in
      if ltb 0 found.1 then wrap16 (line x -ℤ line_offset found) else line x

  unfoldable pub process_row_wise : Heat → Heat
  unfolding correct_line
  process_row_wise heat y x = correct_line 60 (heat y) x

  unfoldable pub process_column_wise : Heat → Heat
  unfolding correct_line
  process_column_wise heat y x = correct_line 40 (λ r. heat r x) y

  unfoldable pub process_mode : DimensionMode → Heat → Heat
  unfolding process_row_wise process_column_wise
  process_mode DimensionMode.off heat = heat
  process_mode DimensionMode.row_wise heat = process_row_wise heat
  process_mode DimensionMode.column_wise heat = process_column_wise heat
  process_mode DimensionMode.dual_dim heat = process_column_wise (process_row_wise heat)

  unfoldable pub process_cmf : Heat → Heat
  unfolding process_mode
  process_cmf heat = if not cfg.enabled then heat else process_mode cfg.mode heat

  -- A line whose background cells all have the value `v`.
  abbrev pub IsLevel : (ℕ → ℤ) → ℕ → ℤ → Type 0
  IsLevel line n v = (x : ℕ) → x < n → is_background (line x) ≡ true → line x ≡ v

  background-le :
      (line : ℕ → ℤ) (n x : ℕ) (sum : ℤ) (count : ℕ) → count ≤ (background line n x sum count).1
  unfolding background
  background-le line zero x sum count = omega arith
  background-le line (suc n) x sum count = ground (
    arith,
    background-le line n (x + 1) (sum +ℤ line x) (count + 1),
    background-le line n (x + 1) sum count,
  )

  background-lt :
      (line : ℕ → ℤ) (n x y : ℕ) (sum : ℤ) (count : ℕ)
      → x ≤ y
      → y < x + n
      → is_background (line y) ≡ true
      → count < (background line n x sum count).1
  unfolding background
  background-lt line zero x y sum count h k b = absurd (omega arith)
  background-lt line (suc n) x y sum count h k b = elim (ℕ_discrete x y) [
    | yes e ↦
        let here : is_background (line x) ≡ true = rw e b in
        rw (here, background)
          (omega (arith, background-le line n (x + 1) (sum +ℤ line x) (count + 1)))
    | no d ↦
        let later : x + 1 ≤ y = omega arith in
        elim (Bool-cases (is_background (line x))) [
          | inl t ↦
              rw (t, background)
                (omega (
                  arith,
                  background-lt line n (x + 1) y (sum +ℤ line x) (count + 1) later (omega arith) b,
                ))
          | inr t ↦
              rw (t, background) (background-lt line n (x + 1) y sum count later (omega arith) b)
        ]
  ]

  background-IsSum :
      (line : ℕ → ℤ) (v : ℤ) (n x : ℕ) (sum : ℤ) (count : ℕ)
      → ((y : ℕ) → y < x + n → is_background (line y) ≡ true → line y ≡ v)
      → IsSum v count sum
      → IsSum v (background line n x sum count).1 (background line n x sum count).0
  unfolding background
  background-IsSum line v zero x sum count level s = s
  background-IsSum line v (suc n) x sum count level s = elim (Bool-cases (is_background (line x))) [
    | inl t ↦
        rw (t, background)
          (background-IsSum line v n (x + 1) (sum +ℤ line x) (count + 1)
            (λ y h. level y (omega arith)) (rw (level x (omega arith) t) (add-IsSum v count sum s)))
    | inr t ↦
        rw (t, background)
          (background-IsSum line v n (x + 1) sum count (λ y h. level y (omega arith)) s)
  ]

mul-div : (k m : ℕ) → 0 < k → k * m / k ≡ m
mul-div k m h = grind arith

quot-IsSum : (v : ℤ) (k : ℕ) (sum : ℤ) → 0 < k → IsSum v k sum → quot sum (pos k) ≡ v
unfolding quot ◌-ℤ◌
quot-IsSum (pos m) k (pos a) h (e, f) = rw e (ap pos (mul-div k m h))
quot-IsSum (pos m) k (negsuc a) h (e, f) = absurd (grind arith)
quot-IsSum (negsuc m) k (pos a) h (e, f) = absurd (grind arith)
quot-IsSum (negsuc m) k (negsuc a) h (e, f) = ground (arith, mul-div k (suc m) h)

clamp_ℤ-within : (v lo hi : ℤ) → lo ≤ℤ v → v ≤ℤ hi → clamp_ℤ v lo hi ≡ v
unfolding clamp_ℤ
clamp_ℤ-within v lo hi h k = ground arith

minus-IsInt16 : (n : ℕ) → n < 32768 → IsInt16 (pos 0 -ℤ pos n)
unfolding ◌-ℤ◌
minus-IsInt16 zero h = omega arith
minus-IsInt16 (suc n) h =
    let e : pos 0 -ℤ pos (suc n) ≡ negsuc n = ground arith in subst IsInt16 (sym e) (omega arith)

wrap16_self : (v : ℤ) → wrap16 (v -ℤ v) ≡ pos 0
unfolding wrap16 to_int16 ◌-ℤ◌
wrap16_self v = ground arith

module _ (cfg : CmfSettings) (bound : ℕ) (max : cfg.max_correction ≡ pos bound)
    (small : bound < 32768) where
  line_offset_lem :
      (v : ℤ) (found : ℤ × ℕ)
      → 0 < found.1
      → IsSum v found.1 found.0
      → IsInt16 v
      → pos 0 -ℤ pos bound ≤ℤ v
      → v ≤ℤ pos bound
      → line_offset cfg found ≡ v
  unfolding line_offset
  line_offset_lem v (sum, k) h s w lo hi =
      rw
        (
          max,
          quot-IsSum v k sum h s,
          wrap16-IsInt16 v w,
          wrap16-IsInt16 (pos 0 -ℤ pos bound) (minus-IsInt16 bound small),
          wrap16-IsInt16 (pos bound) small,
        )
        (clamp_ℤ-within v (pos 0 -ℤ pos bound) (pos bound) lo hi)

  shifted :
      (line : ℕ → ℤ) (n x : ℕ) (v : ℤ)
      → 0 < (background cfg line n 0 (pos 0) 0).1
      → IsSum v (background cfg line n 0 (pos 0) 0).1 (background cfg line n 0 (pos 0) 0).0
      → IsInt16 v
      → pos 0 -ℤ pos bound ≤ℤ v
      → v ≤ℤ pos bound
      → correct_line cfg n line x ≡ wrap16 (line x -ℤ v)
  unfolding correct_line
  shifted line n x v some_cells sums w lo hi = rw (
    lt→ltb 0 (background cfg line n 0 (pos 0) 0).1 some_cells,
    line_offset_lem v (background cfg line n 0 (pos 0) 0) some_cells sums w lo hi,
  )

  -- Where the background cells of a line have one value `v` that the largest correction allows, the
  -- filter sets the background cells to 0 and takes `v` from the others.
  pub common_mode_is_removed :
      (line : ℕ → ℤ) (n x y : ℕ) (v : ℤ)
      → IsLevel cfg line n v
      → y < n
      → is_background cfg (line y) ≡ true
      → IsInt16 v
      → pos 0 -ℤ pos bound ≤ℤ v
      → v ≤ℤ pos bound
      → x < n
      → correct_line cfg n line x
        ≡ (if is_background cfg (line x) then pos 0 else wrap16 (line x -ℤ v))
  common_mode_is_removed line n x y v level hy b w lo hi hx =
      let moved =
        shifted line n x v (background-lt cfg line n 0 y (pos 0) 0 (omega arith) (omega arith) b)
          (background-IsSum cfg line v n 0 (pos 0) 0 (λ z h. level z (omega arith)) (omega arith)) w
          lo hi in
      elim (Bool-cases (is_background cfg (line x))) [
        | inl t ↦ rw t (moved ∙ ap (λ u. wrap16 (u -ℤ v)) (level x hx t) ∙ wrap16_self v)
        | inr t ↦ rw t moved
      ]
