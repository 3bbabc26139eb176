-- ===== src/Gesture/Slot.antt =====
-- `UpdateSlot`: the transitions of one slot.
use ego_touch_rev.Prelude.{
  ℕ, ◌+◌, ◌%◌, Bool, true, false, not, ◌&&◌, Option, none, some, ltb, leb, if◌then◌else◌,
}
use ego_touch_rev.Prelude.Int.{pos, ltb_ℤ}
use ego_touch_rev.Prelude.Float.{FloatOps}
use ego_touch_rev.Engine.{TouchContact}
use ego_touch_rev.Gesture.{GesturePhase, GestureSlot, Tuning}
use ego_touch_rev.Gesture.GesturePhase.{
  idle, press_candidate, dragging, long_press_hold, release_pending,
}

abbrev pub u16 : ℕ → ℕ
u16 n = n % 65536

abbrev pub is_dragging : GesturePhase → Bool
is_dragging dragging = true
is_dragging _ = false

module _ {F : Type 0} (fl : FloatOps F) (cfg : Tuning F) where
  -- The squared distance from the anchor.
  abbrev pub drift_sq : GestureSlot F → TouchContact F → F
  drift_sq slot c =
      let dx = fl.sub_f c.x slot.anchor_x in
      let dy = fl.sub_f c.y slot.anchor_y in fl.add_f (fl.mul_f dx dx) (fl.mul_f dy dy)

  abbrev pub beyond_drag : GestureSlot F → TouchContact F → Bool
  beyond_drag slot c = fl.lt_f (fl.mul_f cfg.drag_threshold cfg.drag_threshold) (drift_sq slot c)

  abbrev pub within_tolerance : GestureSlot F → TouchContact F → Bool
  within_tolerance slot c =
      fl.le_f (drift_sq slot c)
        (fl.mul_f cfg.long_press_move_tolerance cfg.long_press_move_tolerance)

  -- The stable check for the emission of Down.
  abbrev pub is_stable : TouchContact F → Bool
  is_stable c =
      not (
        ltb 0 cfg.press_candidate_min_signal
        && ltb_ℤ c.signal_sum (pos cfg.press_candidate_min_signal))
      && not (
          fl.lt_f fl.zero_f cfg.press_candidate_min_size_mm
          && fl.lt_f c.size_mm cfg.press_candidate_min_size_mm)

  -- What every branch that has a contact copies from it.
  abbrev pub track : TouchContact F → GestureSlot F → GestureSlot F
  track c slot = record slot {
    missing_frames = 0;
    last_tracked_x = c.x;
    last_tracked_y = c.y;
    size_mm = c.size_mm;
    signal_sum = c.signal_sum;
    area = c.area;
    is_edge = c.is_edge;
  }

  -- T1
  press : TouchContact F → GestureSlot F → GestureSlot F
  press c slot = record slot {
    phase = press_candidate;
    anchor_x = c.x;
    anchor_y = c.y;
    last_tracked_x = c.x;
    last_tracked_y = c.y;
    last_output_x = c.x;
    last_output_y = c.y;
    age_frames = 1;
    missing_frames = 0;
    stable_frames = 1;
    size_mm = c.size_mm;
    signal_sum = c.signal_sum;
    area = c.area;
    is_edge = c.is_edge;
    quick_tap_eligible = true;
  }

  -- T2 and T3, after the stable check and the lock to the anchor.
  hold : TouchContact F → GestureSlot F → GestureSlot F
  hold c slot =
      let age = u16 (slot.age_frames + 1) in
      let s = record (track c slot) {
        age_frames = age;
        stable_frames = if is_stable c then u16 (slot.stable_frames + 1) else 0;
        last_output_x = slot.anchor_x;
        last_output_y = slot.anchor_y;
      } in
      if beyond_drag slot c
      then record s {
        phase = dragging;
        quick_tap_eligible = false;
        last_output_x = c.x;
        last_output_y = c.y;
      }
      else if leb (u16 cfg.long_press_frames) age && within_tolerance slot c
      then record s { phase = long_press_hold; quick_tap_eligible = false }
      else s

  drag : TouchContact F → GestureSlot F → GestureSlot F
  drag c slot = record (track c slot) {
    age_frames = u16 (slot.age_frames + 1);
    last_output_x = c.x;
    last_output_y = c.y;
  }

  long_press : TouchContact F → GestureSlot F → GestureSlot F
  long_press c slot =
      let s = record (track c slot) { age_frames = u16 (slot.age_frames + 1) } in
      if beyond_drag slot c
      then record s { phase = dragging; last_output_x = c.x; last_output_y = c.y }
      else record s { last_output_x = slot.anchor_x; last_output_y = slot.anchor_y }

  -- T4, T5, T6: the contact is gone.
  release : GesturePhase → ℕ → GestureSlot F → GestureSlot F
  release from missing slot = record slot {
    prev_phase = from;
    phase = release_pending;
    missing_frames = missing;
  }

  -- T7
  recover : TouchContact F → GestureSlot F → GestureSlot F
  recover c slot =
      let s = record (track c slot) { phase = slot.prev_phase } in
      if is_dragging slot.prev_phase
      then record s { last_output_x = c.x; last_output_y = c.y }
      else s

  -- The switch of `UpdateSlot`.
  dispatch : GesturePhase → Option (TouchContact F) → GestureSlot F → GestureSlot F
  unfolding press hold drag long_press release recover
  dispatch idle (some c) slot = press c slot
  dispatch idle none slot = slot
  dispatch press_candidate none slot = release press_candidate 1 slot
  dispatch press_candidate (some c) slot = hold c slot
  dispatch dragging none slot = release dragging (u16 (cfg.release_pending_frames + 1)) slot
  dispatch dragging (some c) slot = drag c slot
  dispatch long_press_hold none slot =
      release long_press_hold (u16 (cfg.release_pending_frames + 1)) slot
  dispatch long_press_hold (some c) slot = long_press c slot
  dispatch release_pending (some c) slot = recover c slot
  dispatch release_pending none slot = record slot {
    missing_frames = u16 (slot.missing_frames + 1);
  }

  unfoldable pub update_slot : GestureSlot F → Option (TouchContact F) → GestureSlot F
  unfolding dispatch
  update_slot slot contact = dispatch slot.phase contact slot
