-- ===== src/Gesture/Tests.antt =====
-- Touches on one slot over the integers, and the theorems at concrete frames.
use ego_touch_rev.Prelude.{
  map, ◌++◌, ◌+◌, ◌≤◌, ◌<◌, List, [], ◌∷◌, Bool, not, Option, none, some, ◌≡◌, refl, arith,
  replicate, max,
}
use ego_touch_rev.Prelude.Int.{ℤ, pos, ◌+ℤ◌, ◌-ℤ◌, ◌*ℤ◌, ltb_ℤ}
use ego_touch_rev.Prelude.Float.{FloatOps}
use ego_touch_rev.Engine.{TouchContact, default_contact}
use ego_touch_rev.Gesture.{GestureSlot, Tuning, reset_slot}
use ego_touch_rev.Gesture.GesturePhase.{press_candidate, dragging, long_press_hold}
use ego_touch_rev.Gesture.Slot.{update_slot}
use ego_touch_rev.Gesture.Process.{slot_turn, is_idle, process, contact_for_slot}
use ego_touch_rev.Gesture.Process.{rewrite_contact}
use ego_touch_rev.Gesture.Invariant.{slot_frame}
use ego_touch_rev.Gesture.Lifecycle.{Tally, run, bit, one_up_per_touch}
use ego_touch_rev.Gesture.LongPress.{rest_becomes_long_press}
use ego_touch_rev.Gesture.Slotwise.{frame_slots, turned_slots, due_ups}
use ego_touch_rev.Gesture.Output.{process_slotwise}

abbrev leb_ℤ : ℤ → ℤ → Bool
leb_ℤ a b = not (ltb_ℤ b a)

abbrev ints : FloatOps ℤ
ints = record {
  zero_f = pos 0;
  add_f = ◌+ℤ◌;
  sub_f = ◌-ℤ◌;
  mul_f = ◌*ℤ◌;
  lt_f = ltb_ℤ;
  le_f = leb_ℤ;
}

abbrev defaults : Tuning ℤ
defaults = record {
  press_candidate_frames = 1;
  press_candidate_min_signal = 0;
  press_candidate_min_size_mm = pos 0;
  drag_threshold = pos 8;
  long_press_frames = 3;
  long_press_move_tolerance = pos 8;
  release_pending_frames = 0;
}

abbrev graceful : Tuning ℤ
graceful = record defaults { release_pending_frames = 2 }

abbrev finger_at : ℤ → TouchContact ℤ
finger_at px = record (default_contact (pos 0)) {
  id = pos 1;
  x = px;
  y = pos 5;
  signal_sum = pos 300;
}

abbrev nothing_yet : Tally
nothing_yet = record { presses = 0; ups = 0 }

abbrev fresh : GestureSlot ℤ
fresh = reset_slot (pos 0)

-- A tap, its quiet frame, and a drag.
abbrev frames : List (Option (TouchContact ℤ))
frames =
    some (finger_at (pos 10))
    ∷ none
    ∷ some (finger_at (pos 10))
    ∷ some (finger_at (pos 10))
    ∷ some (finger_at (pos 30))
    ∷ none
    ∷ []

two_touches : (run ints defaults fresh nothing_yet frames).1 ≡ record { presses = 2; ups = 2 }
unfolding run slot_frame slot_turn update_slot ◌+ℤ◌ ◌-ℤ◌ ◌*ℤ◌
two_touches = refl

one_up_per_touch_example :
    (run ints defaults fresh nothing_yet frames).1.presses
    ≡ (run ints defaults fresh nothing_yet frames).1.ups
      + bit (not (is_idle (run ints defaults fresh nothing_yet frames).0.phase))
one_up_per_touch_example = one_up_per_touch ints defaults frames (omega arith)

abbrev tapped : GestureSlot ℤ
tapped = record fresh { phase = press_candidate; age_frames = 1; stable_frames = 1 }

abbrev dragged : GestureSlot ℤ
dragged = record fresh { phase = dragging; age_frames = 9 }

rest_becomes_long_press_example :
    let s = (run ints defaults fresh nothing_yet (replicate 4 (some (finger_at (pos 10))))).0 in
    (s.last_output_x ≡ pos 10)
    × (s.last_output_y ≡ pos 5)
    × (4 < max 3 2 → s.phase ≡ press_candidate)
    × (max 3 2 ≤ 4 → s.phase ≡ long_press_hold)
unfolding ◌+ℤ◌ ◌-ℤ◌ ◌*ℤ◌
rest_becomes_long_press_example =
    rest_becomes_long_press ints defaults (finger_at (pos 10)) (omega arith) 3 (refl, refl)

abbrev one_contact : List (TouchContact ℤ)
one_contact = finger_at (pos 10) ∷ []

process_slotwise_example :
    let slots = dragged ∷ fresh ∷ [] in
    let turned = turned_slots ints defaults (contact_for_slot one_contact) 0 slots one_contact in
    ((process ints defaults slots one_contact).0
      ≡ frame_slots ints defaults (contact_for_slot one_contact) 0 slots one_contact)
    × ((process ints defaults slots one_contact).1
        ≡ map (rewrite_contact ints defaults turned) one_contact ++ due_ups ints defaults 0 turned)
process_slotwise_example = process_slotwise ints defaults (dragged ∷ fresh ∷ []) one_contact
