-- ===== src/Gesture/Invariant.antt =====
-- What holds of every slot between two frames.
use ego_touch_rev.Prelude.{◌≤◌, Bool, true, false, Option, if◌then◌else◌, ◌≡◌, arith, ◌≢◌, ◌⊎◌}
use ego_touch_rev.Prelude.Float.{FloatOps}
use ego_touch_rev.Engine.{TouchContact}
use ego_touch_rev.Gesture.{GesturePhase, GestureSlot, Tuning, reset_slot}
use ego_touch_rev.Gesture.GesturePhase.{
  idle, press_candidate, dragging, long_press_hold, release_pending,
}
use ego_touch_rev.Gesture.Slot.{update_slot}
use ego_touch_rev.Gesture.Process.{slot_turn, is_overdue, after_up}

-- A slot in these phases shows the position of its first contact.
abbrev pub is_locked : GesturePhase → GesturePhase → Bool
is_locked press_candidate _ = true
is_locked long_press_hold _ = true
is_locked release_pending press_candidate = true
is_locked release_pending long_press_hold = true
is_locked _ _ = false

abbrev pub is_touching : GesturePhase → Bool
is_touching press_candidate = true
is_touching dragging = true
is_touching long_press_hold = true
is_touching _ = false

-- The range that `LoadConfig` gives the frame counts.
abbrev pub InRange : {F : Type 0} → Tuning F → Type 0
InRange cfg =
    (1 ≤ cfg.press_candidate_frames)
    × (cfg.press_candidate_frames ≤ 30)
    × (1 ≤ cfg.long_press_frames)
    × (cfg.long_press_frames ≤ 300)
    × (cfg.release_pending_frames ≤ 30)

module _ {F : Type 0} (cfg : Tuning F) where
  pub record IsValid (s : GestureSlot F) : Type 0 where
    pub locked_x : is_locked s.phase s.prev_phase ≡ true → s.last_output_x ≡ s.anchor_x
    pub locked_y : is_locked s.phase s.prev_phase ≡ true → s.last_output_y ≡ s.anchor_y
    pub recoverable : s.phase ≡ release_pending → is_touching s.prev_phase ≡ true
    pub cooling_idle : s.up_emitted ≡ true → s.phase ≡ idle
    pub present : s.phase ≢ release_pending → s.missing_frames ≡ 0
    pub absent : s.phase ≡ release_pending → 1 ≤ s.missing_frames
    pub in_grace : s.missing_frames ≤ cfg.release_pending_frames

module _ {F : Type 0} (fl : FloatOps F) (cfg : Tuning F) where
  pub reset-IsValid : IsValid cfg (reset_slot fl.zero_f)
  reset-IsValid = ground arith

  -- One frame for a slot, from the contact that it points at: the state after phase 3, and whether
  -- it emits an Up.
  unfoldable pub slot_frame : GestureSlot F → Option (TouchContact F) → GestureSlot F × Bool
  slot_frame slot contact =
      let s = slot_turn fl cfg slot contact in
      (if is_overdue fl cfg s then after_up fl cfg else s, is_overdue fl cfg s)

  -- The invariant between phase 1 and phase 3, where a slot may be overdue.
  record IsTurned (s : GestureSlot F) : Type 0 where
    locked_x : is_locked s.phase s.prev_phase ≡ true → s.last_output_x ≡ s.anchor_x
    locked_y : is_locked s.phase s.prev_phase ≡ true → s.last_output_y ≡ s.anchor_y
    recoverable : s.phase ≡ release_pending → is_touching s.prev_phase ≡ true
    cooling_idle : s.up_emitted ≡ true → s.phase ≡ idle
    present : s.phase ≢ release_pending → s.missing_frames ≡ 0
    absent : s.phase ≡ release_pending → 1 ≤ s.missing_frames

  update_slot-IsTurned :
      (s : GestureSlot F) (o : Option (TouchContact F))
      → InRange cfg
      → IsValid cfg s
      → (s.phase ≢ idle) ⊎ (s.up_emitted ≡ false)
      → IsTurned (update_slot fl cfg s o)
  unfolding update_slot
  update_slot-IsTurned s o r v w = ground arith

  slot_turn-IsTurned :
      (s : GestureSlot F) (o : Option (TouchContact F))
      → InRange cfg
      → IsValid cfg s
      → IsTurned (slot_turn fl cfg s o)
  unfolding slot_turn
  slot_turn-IsTurned s o r v = ground (arith, update_slot-IsTurned s o r v)

  pub slot_frame-IsValid :
      (s : GestureSlot F) (o : Option (TouchContact F))
      → InRange cfg
      → IsValid cfg s
      → IsValid cfg (slot_frame s o).0
  unfolding slot_frame
  slot_frame-IsValid s o r v = ground (arith, slot_turn-IsTurned s o r v)
