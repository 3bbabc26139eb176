-- ===== src/Engine.antt =====
-- The data of EGoTouchService/Engine/EngineTypes.h that the touch stages share. `F` stands for
-- `float`; a C++ `int` is an integer, and its enumerators are the integers of the source.
use ego_touch_rev.Prelude.{ℕ, Bool, true, false}
use ego_touch_rev.Prelude.Int.{ℤ, pos, negsuc}

pub record TouchContact (F : Type 0) : Type 0 where
  pub id : ℤ
  pub x : F
  pub y : F
  pub state : ℤ
  pub area : ℤ
  pub signal_sum : ℤ
  pub size_mm : F
  pub is_edge : Bool
  pub is_reported : Bool
  pub prev_index : ℤ
  pub debug_flags : ℤ
  pub life_flags : ℕ
  pub report_flags : ℕ
  pub report_event : ℤ

-- A contact with the initialisers of the struct; `zero` is `0.0f`.
abbrev pub default_contact : {F : Type 0} → F → TouchContact F
default_contact zero = record {
  id = pos 0;
  x = zero;
  y = zero;
  state = pos 0;
  area = pos 0;
  signal_sum = pos 0;
  size_mm = zero;
  is_edge = false;
  is_reported = true;
  prev_index = negsuc 0;
  debug_flags = pos 0;
  life_flags = 0;
  report_flags = 0;
  report_event = pos 0;
}

-- TouchContactState
abbrev pub touch_state_up : ℤ
touch_state_up = pos 2

-- TouchLifeFlagBits
abbrev pub touch_life_lift_off : ℕ
touch_life_lift_off = 4

-- TouchReportEventCode
abbrev pub touch_report_idle : ℤ
touch_report_idle = pos 1

abbrev pub touch_report_down : ℤ
touch_report_down = pos 2

abbrev pub touch_report_move : ℤ
touch_report_move = pos 4

abbrev pub touch_report_up : ℤ
touch_report_up = pos 0x20

-- `heatmapMatrix`, from the row and the column; every access stays within 40 × 60.
abbrev pub Heat : Type 0
Heat = ℕ → ℕ → ℤ
