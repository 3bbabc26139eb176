-- ===== src/Preprocessing/Iir.antt =====
-- GridIIRProcessor.cpp: cells below a threshold decay to 0 over the frames.
use native.Mathlib.Nat.{mul-le-mul_right}
use ego_touch_rev.Prelude.{
  ℕ, zero, suc, ◌+◌, ◌-◌, ◌*◌, ◌/◌, ◌%◌, ◌≤◌, ◌<◌, ◌≡◌, refl, inl, inr, ◌∙◌, ap, arith, List, [],
  ◌∷◌, Bool, true, false, not, ◌&&◌, Option, none, some, length, All, if◌then◌else◌, Bool-cases,
}
use ego_touch_rev.Prelude.Int.{ℤ, pos, ◌+ℤ◌, ◌-ℤ◌, ◌*ℤ◌, ◌≤ℤ◌, ltb_ℤ, quot, wrap16, to_int16}
use ego_touch_rev.Engine.{Heat}
use ego_touch_rev.Preprocessing.Gaussian.{div_bound}

-- `gate` is `std::lround(frameMax * m_gateRatio)`, and `residue` the product of a difference and
-- m_residualAlpha as an `int16`.
pub record IirSettings : Type 0 where
  pub enabled : Bool
  pub gate : ℤ → ℤ
  pub gate_static_floor : ℤ
  pub decay_weight : ℤ
  pub decay_step : ℤ
  pub noise_floor_cutoff : ℤ
  pub residual_enabled : Bool
  pub residue : ℤ → ℤ

abbrev pub max_ℤ : ℤ → ℤ → ℤ
max_ℤ a b = if ltb_ℤ a b then b else a

-- The largest signal of the cells from `i` on, with the cells that are left, and at least `best`.
unfoldable pub frame_max : Heat → ℕ → ℕ → ℤ → ℤ
frame_max heat zero i best = best
frame_max heat (suc n) i best = frame_max heat n (i + 1) (max_ℤ best (heat (i / 60) (i % 60)))

module _ (cfg : IirSettings) where
  unfoldable pub apply_iir : ℤ → ℤ → ℤ → ℤ
  unfolding quot
  apply_iir current history dyn_threshold =
      if not (ltb_ℤ current dyn_threshold)
      then current
      else (let mixed =
            quot (cfg.decay_weight *ℤ current +ℤ (pos 256 -ℤ cfg.decay_weight) *ℤ history)
              (pos 256) in
          let val = max_ℤ (pos 0) (mixed -ℤ cfg.decay_step) in
          if ltb_ℤ val cfg.noise_floor_cutoff then pos 0 else wrap16 val)

  unfoldable pub correct_residual : ℤ → ℤ → ℤ
  correct_residual current history =
      if cfg.residual_enabled && ltb_ℤ current history
      then max_ℤ (pos 0) (wrap16 (current -ℤ cfg.residue (history -ℤ current)))
      else current

  unfoldable pub dyn_threshold : Heat → ℤ
  dyn_threshold heat =
      wrap16 (max_ℤ (cfg.gate (frame_max heat 2400 0 (pos 0))) cfg.gate_static_floor)

  abbrev pub filter_cells : Heat → Heat → Heat
  filter_cells heat old y x =
      apply_iir (correct_residual (heat y x) (old y x)) (old y x) (dyn_threshold heat)

  -- Process, from the history to the matrix and the history; `none` is a history not initialised.
  unfoldable pub process_iir : Heat → Option Heat → Heat × Option Heat
  process_iir heat none = if not cfg.enabled then (heat, none) else (heat, some heat)
  process_iir heat (some old) =
      if not cfg.enabled
      then (heat, some old)
      else (filter_cells heat old, some (filter_cells heat old))

  -- The history behind a sequence of frames.
  unfoldable pub iir_history : Option Heat → List Heat → Option Heat
  iir_history old [] = old
  iir_history old (heat ∷ frames) = iir_history (process_iir heat old).1 frames

  -- The filter is on without the residual correction. Its weight is at most 256, its static threshold
  -- from 1 to 32767 and its gate at most 32767.
  pub record Decays (w s f : ℕ) : Type 0 where
    pub on : cfg.enabled ≡ true
    pub plain : cfg.residual_enabled ≡ false
    pub weight : cfg.decay_weight ≡ pos w
    pub weight_bound : w ≤ 256
    pub step : cfg.decay_step ≡ pos s
    pub floor : cfg.gate_static_floor ≡ pos f
    pub floor_bound : (0 < f) × (f < 32768)
    pub gate_bound : (v : ℤ) → cfg.gate v ≤ℤ pos 32767

wrap_gate :
    (g : ℤ) (f : ℕ)
    → g ≤ℤ pos 32767
    → 0 < f
    → f < 32768
    → ltb_ℤ (pos 0) (wrap16 (max_ℤ g (pos f))) ≡ true
unfolding wrap16 to_int16
wrap_gate g f h k l = ground arith

times_pos : (a b : ℕ) → pos a *ℤ pos b ≡ pos (a * b)
unfolding ◌*ℤ◌
times_pos a b = grind arith

minus_pos : (a b : ℕ) → b ≤ a → pos a -ℤ pos b ≡ pos (a - b)
unfolding ◌-ℤ◌
minus_pos a b h = ground arith

plus_pos : (a b : ℕ) → pos a +ℤ pos b ≡ pos (a + b)
unfolding ◌+ℤ◌
plus_pos a b = ground arith

-- The mean of a value and 0.
weigh :
    (w h : ℕ)
    → w ≤ 256
    → quot (pos w *ℤ pos 0 +ℤ (pos 256 -ℤ pos w) *ℤ pos h) (pos 256) ≡ pos ((256 - w) * h / 256)
unfolding quot
weigh w h k =
    rw (times_pos w 0, minus_pos 256 w k, times_pos (256 - w) h, plus_pos (w * 0) ((256 - w) * h))
      (ap (λ n. pos (n / 256)) (omega arith))

mean_le : (w h : ℕ) → (256 - w) * h / 256 ≤ h
mean_le w h =
    div_bound _ h 256 (omega arith)
      (omega (arith, mul-le-mul_right {m = 256 - w} {n = 256} h (omega arith)))

lower : (v s : ℕ) → max_ℤ (pos 0) (pos v -ℤ pos s) ≡ pos (v - s)
unfolding ◌-ℤ◌
lower v s = ground arith

wrap16_small : (v : ℕ) → v < 32768 → wrap16 (pos v) ≡ pos v
unfolding wrap16 to_int16
wrap16_small v h = ground arith

next_bound : (n s : ℕ) → suc n * s ≡ n * s + s
next_bound n s = grind arith

module _ (cfg : IirSettings) (w s f : ℕ) (d : Decays cfg w s f) where
  dyn_threshold_pos : (heat : Heat) → ltb_ℤ (pos 0) (dyn_threshold cfg heat) ≡ true
  unfolding dyn_threshold
  dyn_threshold_pos heat =
      rw d.floor (
        wrap_gate _ f (d.gate_bound (frame_max heat 2400 0 (pos 0))) d.floor_bound.0
          d.floor_bound.1)

  apply_iir-le :
      (h : ℕ) (dyn : ℤ)
      → h < 32768
      → ltb_ℤ (pos 0) dyn ≡ true
      → (r : ℕ) × (apply_iir cfg (pos 0) (pos h) dyn ≡ pos r) × (r ≤ h - s)
  unfolding apply_iir
  apply_iir-le h dyn k l =
      elim (Bool-cases (ltb_ℤ (pos ((256 - w) * h / 256 - s)) cfg.noise_floor_cutoff)) [
        | inl c ↦
            (0, rw (l, d.weight, weigh w h d.weight_bound, d.step, lower _ s, c) refl, omega arith)
        | inr c ↦ (
          (256 - w) * h / 256 - s,
          rw (l, d.weight, weigh w h d.weight_bound, d.step, lower _ s, c)
              (wrap16_small _ (omega (arith, mean_le w h))),
          omega (arith, mean_le w h),
        )
      ]

  plain_cell : (h : ℕ) → correct_residual cfg (pos 0) (pos h) ≡ pos 0
  unfolding correct_residual
  plain_cell h = rw d.plain refl

  -- One frame in which a cell has no signal.
  cell_step :
      (heat old : Heat) (y x h : ℕ)
      → heat y x ≡ pos 0
      → old y x ≡ pos h
      → h < 32768
      → (next : Heat) × (process_iir cfg heat (some old) ≡ (next, some next))
        × (r : ℕ) × (next y x ≡ pos r)
        × (r ≤ h - s)
  unfolding process_iir
  cell_step heat old y x h e g k =
      let (r, lowered, le) = apply_iir-le h (dyn_threshold cfg heat) k (dyn_threshold_pos heat) in
      (filter_cells cfg heat old, rw d.on refl, r, rw (e, g, plain_cell h) lowered, le)

  -- With the filter on and without the residual correction, a weight up to 256, a static threshold from 1
  -- to 32767 and a gate up to 32767, a cell that has no signal any more is 0 in the history once the
  -- number of frames times the step reaches the value that it had.
  pub silent_cell_fades :
      (frames : List Heat) (old : Heat) (y x h : ℕ)
      → All (λ heat. heat y x ≡ pos 0) frames
      → old y x ≡ pos h
      → h < 32768
      → h ≤ length frames * s
      → (last : Heat) × (iir_history cfg (some old) frames ≡ some last) × (last y x ≡ pos 0)
  unfolding iir_history
  silent_cell_fades [] old y x h a e k l = let z : h ≡ 0 = omega arith in (old, refl, e ∙ ap pos z)
  silent_cell_fades (heat ∷ frames) old y x h (q, a) e k l =
      let (next, run, r, low, le) = cell_step heat old y x h q e k in
      let (last, final, gone) =
        silent_cell_fades frames next y x r a low (omega arith)
          (omega (arith, next_bound (length frames) s)) in
      (last, rw run final, gone)
