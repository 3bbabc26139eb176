-- ===== src/Gesture/Config.antt =====
-- `LoadConfig` of the state machine. `stoi` and `stof` are the C++ library's; the integers that
-- `std::clamp` and `std::max` make of what `stoi` reads are at 0 or above, so a tuning holds naturals.
use Prim.Native.String.{String}
use text.Mathlib.Text.{◌==◌}
use ego_touch_rev.Prelude.{ℕ, arith, min, max, if◌then◌else◌}
use ego_touch_rev.Prelude.Int.{ℤ, pos_part}
use ego_touch_rev.Prelude.Float.{FloatOps}
use ego_touch_rev.Gesture.{Tuning}
use ego_touch_rev.Gesture.Invariant.{InRange}

-- std::clamp(v, lo, hi) at 0 ≤ lo
abbrev pub clamp_from : ℕ → ℕ → ℤ → ℕ
clamp_from lo hi v = min (max (pos_part v) lo) hi

module _ {F : Type 0} (fl : FloatOps F) (stoi : String → ℤ) (stof : String → F)
    (hundredth : F) where
  -- std::max(lo, v)
  abbrev pub at_least : F → F → F
  at_least lo v = if fl.lt_f lo v then v else lo

  -- `hundredth` is `0.01f`. The base class's "Enabled" key concerns no tuning member.
  pub load_config : String → String → Tuning F → Tuning F
  load_config key value cfg =
      if key == "PressCandidateFrames"
      then record cfg { press_candidate_frames = clamp_from 1 30 (stoi value) }
      else if key == "PressCandidateMinSignal"
      then record cfg { press_candidate_min_signal = pos_part (stoi value) }
      else if key == "PressCandidateMinSizeMm"
      then record cfg { press_candidate_min_size_mm = at_least fl.zero_f (stof value) }
      else if key == "DragThreshold"
      then record cfg { drag_threshold = at_least hundredth (stof value) }
      else if key == "LongPressFrames"
      then record cfg { long_press_frames = clamp_from 1 300 (stoi value) }
      else if key == "LongPressMoveTolerance"
      then record cfg { long_press_move_tolerance = at_least hundredth (stof value) }
      else if key == "ReleasePendingFrames"
      then record cfg { release_pending_frames = clamp_from 0 30 (stoi value) }
      else cfg

  -- Whatever key and value a configuration file holds, the frame counts stay in range.
  pub load_config-InRange :
      (key value : String) (cfg : Tuning F) → InRange cfg → InRange (load_config key value cfg)
  unfolding load_config
  load_config-InRange key value cfg r = ground arith
