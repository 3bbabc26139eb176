-- ===== src/Gesture.antt =====
-- TouchGestureStateMachine: EGoTouchService/Engine/Reporting/TouchGestureStateMachine.h and .cpp.
-- The state of one slot, the tuning parameters, and `LoadConfig`; `Slot` has the transitions of a
-- slot, `Process` the frame handler.
pub mod Slot
pub mod Process
pub mod Config
pub mod Invariant
pub mod Lifecycle
pub mod LongPress
pub mod Silence
pub mod Slotwise
pub mod Output
mod Tests
use ego_touch_rev.Prelude.{ℕ, Bool, true, false}
use ego_touch_rev.Prelude.Int.{ℤ, pos}

pub data GesturePhase : Type 0 where
  idle press_candidate dragging long_press_hold release_pending : GesturePhase

pub record GestureSlot (F : Type 0) : Type 0 where
  pub phase : GesturePhase
  pub prev_phase : GesturePhase
  pub anchor_x : F
  pub anchor_y : F
  pub last_tracked_x : F
  pub last_tracked_y : F
  pub last_output_x : F
  pub last_output_y : F
  pub age_frames : ℕ  -- uint16
  pub missing_frames : ℕ  -- uint16
  pub stable_frames : ℕ  -- uint16
  pub size_mm : F
  pub signal_sum : ℤ
  pub area : ℤ
  pub is_edge : Bool
  pub quick_tap_eligible : Bool
  pub up_emitted : Bool

-- `Reset()`, and the state of a new slot; `zero` is `0.0f`.
abbrev pub reset_slot : {F : Type 0} → F → GestureSlot F
reset_slot zero = record {
  phase = GesturePhase.idle;
  prev_phase = GesturePhase.idle;
  anchor_x = zero;
  anchor_y = zero;
  last_tracked_x = zero;
  last_tracked_y = zero;
  last_output_x = zero;
  last_output_y = zero;
  age_frames = 0;
  missing_frames = 0;
  stable_frames = 0;
  size_mm = zero;
  signal_sum = pos 0;
  area = pos 0;
  is_edge = false;
  quick_tap_eligible = true;
  up_emitted = false;
}

-- The tuning members. `LoadConfig` keeps every one of them at 0 or above.
pub record Tuning (F : Type 0) : Type 0 where
  pub press_candidate_frames : ℕ
  pub press_candidate_min_signal : ℕ
  pub press_candidate_min_size_mm : F
  pub drag_threshold : F
  pub long_press_frames : ℕ
  pub long_press_move_tolerance : F
  pub release_pending_frames : ℕ

abbrev pub max_slots : ℕ
max_slots = 20
