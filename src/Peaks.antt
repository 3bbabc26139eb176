-- ===== src/Peaks.antt =====
-- The peaks of the touch signal: EGoTouchService/Engine/TouchSolver/PeakDetector.h and .cpp.
-- `int` sums of at most 60 cells stay far below their bounds. `std::sort` is a parameter.
pub mod Track
pub mod Insert
pub mod Apart
pub mod Detect
pub mod Filters
pub mod Restamp
pub mod Found
pub mod Numbers
mod Tests
use ego_touch_rev.Prelude.{
  ℕ, zero, suc, ◌+◌, ◌-◌, ◌/◌, ◌%◌, List, [], ◌∷◌, ◌++◌, Bool, true, false, not, ◌&&◌, ◌||◌, ltb,
  leb, ◌==◌, Option, none, some, if◌then◌else◌, length, set,
}
use ego_touch_rev.Engine.{Heat}
use ego_touch_rev.Prelude.Int.{ℤ, pos, ◌+ℤ◌, ◌-ℤ◌, ◌*ℤ◌, ltb_ℤ, abs, quot, shr}

pub record Peak : Type 0 where
  pub r : ℕ
  pub c : ℕ
  pub z : ℤ
  pub neighbor_signal_sum : ℤ
  pub id : ℕ
  pub tz_age : ℕ

pub record Settings : Type 0 where
  pub threshold : ℤ
  pub sig_thold_limit : ℤ
  pub edge_threshold : ℤ
  pub edge_threshold_enabled : Bool
  pub z8_filter : Bool
  pub z1_filter : Bool
  pub pressure_drift_filter : Bool
  pub edge_peak_filter : Bool

abbrev pub default_settings : Settings
default_settings = record {
  threshold = pos 800;
  sig_thold_limit = pos 1200;
  edge_threshold = pos 400;
  edge_threshold_enabled = false;
  z8_filter = true;
  z1_filter = true;
  pressure_drift_filter = true;
  edge_peak_filter = true;
}

abbrev pub max_peaks : ℕ
max_peaks = 20

-- std::vector::erase with std::remove_if.
unfoldable pub remove_if : (Peak → Bool) → List Peak → List Peak
remove_if test [] = []
remove_if test (p ∷ ps) = let rest = remove_if test ps in if test p then rest else p ∷ rest

-- The loop for the weakest peak at index `i`, with the best index and its signal so far.
unfoldable pub weakest : List Peak → ℕ → ℕ → ℤ → ℕ × ℤ
weakest [] i best low = (best, low)
weakest (p ∷ ps) i best low =
    weakest ps (i + 1) (if ltb_ℤ p.z low then i else best) (if ltb_ℤ p.z low then p.z else low)

-- Peak_Insert: behind the others, or in place of the weakest when the list is full.
unfoldable pub insert_peak : Peak → List Peak → List Peak
unfolding weakest
insert_peak new [] = new ∷ []
insert_peak new (p ∷ ps) =
    if ltb (length (p ∷ ps)) max_peaks
    then (p ∷ ps) ++ new ∷ []
    else (let (weak, low) = weakest ps 1 0 p.z in
        if ltb_ℤ low new.z then set (p ∷ ps) weak new else p ∷ ps)

abbrev pub thold_at : Settings → ℕ → ℕ → ℤ
thold_at cfg r c =
    if cfg.edge_threshold_enabled && ((c == 1 || c == 58) || r == 39)
    then cfg.edge_threshold
    else cfg.threshold

module _ (heat : Heat) where
  -- One of the terms of Peak_CalcZn, at an offset by `dr - 1` and `dc - 1`.
  abbrev pub term : ℕ → ℕ → ℕ → ℕ → ℤ
  term r c dr dc =
      if (ltb 0 (r + dr) && ltb (r + dr) 41) && (ltb 0 (c + dc) && ltb (c + dc) 61)
      then heat (r + dr - 1) (c + dc - 1)
      else pos 0

  unfoldable pub calc_zn : ℕ → ℕ → ℤ
  calc_zn r c =
      term r c 0 0
      +ℤ term r c 0 1
      +ℤ term r c 0 2
      +ℤ term r c 1 0
      +ℤ term r c 1 2
      +ℤ term r c 2 0
      +ℤ term r c 2 1
      +ℤ term r c 2 2

  unfoldable pub peak_at : ℕ → ℕ → Peak
  unfolding calc_zn
  peak_at r c = record {
    r = r;
    c = c;
    z = heat r c;
    neighbor_signal_sum = calc_zn r c;
    id = 0;
    tz_age = 0;
  }

module _ (cfg : Settings) (heat : Heat) where
  -- The tests of DetectInRange down to the one above on the left, in their order.
  unfoldable pub is_local_max : ℕ → ℕ → Bool
  is_local_max r c =
      let v = heat r c in
      let at_bot = leb 39 r in
      let at_top = leb r 0 in
      let at_lft = leb c 0 in
      let at_rgt = leb 59 c in
      not (ltb_ℤ v (thold_at cfg r c))
      && (not (not at_bot && (not at_rgt && ltb_ℤ v (heat (r + 1) (c + 1))))
          && (not (not at_bot && ltb_ℤ v (heat (r + 1) c))
              && (not (not at_bot && (not at_lft && ltb_ℤ v (heat (r + 1) (c - 1))))
                  && (not (not at_rgt && ltb_ℤ v (heat r (c + 1)))
                      && (not (not at_lft && not (ltb_ℤ (heat r (c - 1)) v))
                          && (not
                                (not at_top && (not at_rgt && not (ltb_ℤ (heat (r - 1) (c + 1)) v)))
                              && (not (not at_top && not (ltb_ℤ (heat (r - 1) c) v))
                                  && not (
                                      not at_top
                                      && (not at_lft
                                          && not (ltb_ℤ (heat (r - 1) (c - 1)) v))))))))))

  -- The loop of DetectPressureDrift from column `c` on, with the columns that are left: the sums of
  -- the gradients and of the positive signals, or `none` at a gradient that is too sharp.
  unfoldable pub drift_row : ℕ → ℕ → ℕ → ℤ → ℤ → Option (ℤ × ℤ)
  drift_row row zero c gradients signals = some (gradients, signals)
  drift_row row (suc n) c gradients signals =
      let grad = abs (heat row (c + 1) -ℤ heat row (c - 1)) in
      let v = heat row c in
      let rest =
        drift_row row n (c + 1) (gradients +ℤ grad)
          (if ltb_ℤ (pos 0) v then signals +ℤ v else signals) in
      if ltb_ℤ (quot cfg.sig_thold_limit (pos 3)) grad then none else rest

  unfoldable pub detect_pressure_drift : ℕ → ℕ → Bool
  unfolding drift_row quot
  detect_pressure_drift col row =
      let peak = heat row col in
      let limit3_4 = quot (cfg.sig_thold_limit *ℤ pos 3) (pos 4) in
      let limit3_8 = quot (cfg.sig_thold_limit *ℤ pos 3) (pos 8) in
      if ltb_ℤ limit3_4 peak || ltb_ℤ peak limit3_8
      then false
      else elim (drift_row row 58 1 (pos 0) (pos 0)) [
        | none ↦ false
        | some (gradients, signals) ↦
            not (ltb_ℤ signals (quot (peak *ℤ pos 9) (pos 2)))
            && not (ltb_ℤ (peak *ℤ pos 6) gradients)
      ]

  -- A cell that DetectInRange makes a peak of.
  unfoldable pub is_candidate : ℕ → ℕ → Bool
  unfolding is_local_max detect_pressure_drift
  is_candidate r c =
      is_local_max r c && not (cfg.pressure_drift_filter && detect_pressure_drift c r)

  -- The two loops of DetectInRange from cell `i` on, with the cells that are left.
  unfoldable pub scan : ℕ → ℕ → List Peak → List Peak
  unfolding is_candidate insert_peak peak_at
  scan zero i peaks = peaks
  scan (suc n) i peaks = scan n (i + 1) (
      if is_candidate (i / 60) (i % 60)
      then insert_peak (peak_at heat (i / 60) (i % 60)) peaks
      else peaks)

  unfoldable pub detect_in_range : List Peak
  unfolding scan
  detect_in_range = scan 2400 0 []

unfoldable pub apply_z8_filter : List Peak → List Peak
unfolding remove_if shr
apply_z8_filter = remove_if (λ p. ltb_ℤ p.neighbor_signal_sum (shr p.z 5))

unfoldable pub apply_z1_filter : ℤ → List Peak → List Peak
unfolding remove_if
apply_z1_filter thold = remove_if (λ p. ltb_ℤ p.z thold)

-- The largest signal of the peaks on a line, and 0 if none is positive.
unfoldable pub max_signal : (Peak → Bool) → List Peak → ℤ → ℤ
max_signal on [] best = best
max_signal on (p ∷ ps) best = max_signal on ps (if on p && ltb_ℤ best p.z then p.z else best)

-- The lambda of ApplyEdgePeakFilter for one line of the border.
unfoldable pub filter_edge_line : (Peak → Bool) → List Peak → List Peak
unfolding remove_if max_signal shr
filter_edge_line on peaks =
    let max_sig = max_signal on peaks (pos 0) in
    if ltb_ℤ (pos 0) max_sig
    then remove_if (λ p. on p && ltb_ℤ p.z (shr max_sig 3 *ℤ pos 5)) peaks
    else peaks

unfoldable pub apply_edge_peak_filter : List Peak → List Peak
unfolding filter_edge_line
apply_edge_peak_filter peaks =
    filter_edge_line (λ p. p.c == 59)
      (filter_edge_line (λ p. p.c == 0)
        (filter_edge_line (λ p. p.r == 39) (filter_edge_line (λ p. p.r == 0) peaks)))
