-- ===== src/Gesture/Process.antt =====
-- `TouchGestureStateMachine::Process`: the slots are updated, the contacts rewritten from them, and
-- the slots whose grace window is over emit their Up. A pointer into `frame.contacts` is an index.
use ego_touch_rev.Prelude.{
  ℕ, zero, suc, ◌+◌, List, [], ◌∷◌, ◌++◌, map, Bool, true, false, not, ◌&&◌, ◌||◌, Option, none,
  some, ltb, leb, if◌then◌else◌, get_elem?, set,
}
use ego_touch_rev.Prelude.Int.{ℤ, pos, negsuc}
use ego_touch_rev.Prelude.Float.{FloatOps}
use ego_touch_rev.Engine.{
  TouchContact, default_contact, touch_state_up, touch_report_idle, touch_report_down,
  touch_report_move, touch_report_up, touch_life_lift_off,
}
use ego_touch_rev.Gesture.{GesturePhase, GestureSlot, Tuning, max_slots, reset_slot}
use ego_touch_rev.Gesture.GesturePhase.{idle, press_candidate, release_pending}
use ego_touch_rev.Gesture.Slot.{u16, update_slot}

-- `c.id - 1`, where it is the index of a slot.
abbrev pub slot_index : ℤ → Option ℕ
slot_index (pos zero) = none
slot_index (pos (suc n)) = if ltb n max_slots then some n else none
slot_index (negsuc n) = none

abbrev pub is_index : ℕ → Option ℕ → Bool
is_index i none = false
is_index i (some j) = leb i j && leb j i

abbrev pub is_up : ℤ → Bool
is_up (pos n) = leb 2 n && leb n 2
is_up (negsuc n) = false

abbrev pub is_none {ℓ} : {A : Type ℓ} → Option A → Bool
is_none none = true
is_none (some a) = false

abbrev pub is_idle : GesturePhase → Bool
is_idle idle = true
is_idle _ = false

abbrev pub is_release_pending : GesturePhase → Bool
is_release_pending release_pending = true
is_release_pending _ = false

module _ {F : Type 0} where
  -- `contactForSlot[i]`: the last contact that carries the slot's id, as an index into the list.
  unfoldable pub last_with_slot : ℕ → ℕ → List (TouchContact F) → Option ℕ
  last_with_slot i k [] = none
  last_with_slot i k (c ∷ cs) =
      let later = last_with_slot i (k + 1) cs in
      if is_none later then (if is_index i (slot_index c.id) then some k else none) else later

  -- A contact that the tracker marks as Up counts as absent.
  abbrev pub not_up : List (TouchContact F) → Option ℕ → Option ℕ
  not_up cs none = none
  not_up cs (some k) = elim (get_elem? cs k) [
    | none ↦ none
    | some c ↦ if is_up c.state then none else some k
  ]

  unfoldable pub contact_for_slot : List (TouchContact F) → ℕ → Option ℕ
  unfolding last_with_slot
  contact_for_slot cs i = not_up cs (last_with_slot i 0 cs)

  -- What a pointer reads.
  abbrev pub deref : List (TouchContact F) → Option ℕ → Option (TouchContact F)
  deref cs none = none
  deref cs (some k) = get_elem? cs k

  -- `contact->isReported = false; contact->reportEvent = TouchReportIdle;`
  abbrev pub unreport : TouchContact F → TouchContact F
  unreport c = record c { is_reported = false; report_event = touch_report_idle }

  unfoldable pub suppress : List (TouchContact F) → Option ℕ → List (TouchContact F)
  suppress cs none = cs
  suppress cs (some k) = elim (get_elem? cs k) [ none ↦ cs | some c ↦ set cs k (unreport c) ]

module _ {F : Type 0} (fl : FloatOps F) (cfg : Tuning F) where
  -- The state of a slot after phase 1, from the contact that it points at.
  unfoldable pub slot_turn : GestureSlot F → Option (TouchContact F) → GestureSlot F
  slot_turn slot contact =
      if is_idle slot.phase && (is_none contact || slot.up_emitted)
      then record slot { up_emitted = false }
      else update_slot fl cfg slot contact

  -- The contact is silenced in the frame after an Up.
  abbrev pub is_residual : GestureSlot F → Option (TouchContact F) → Bool
  is_residual slot contact = is_idle slot.phase && (not (is_none contact) && slot.up_emitted)

  -- Phase 1 from slot `i` on. `at` is the array of pointers, which is filled before the loop.
  unfoldable pub update_slots :
      (ℕ → Option ℕ)
      → ℕ
      → List (GestureSlot F)
      → List (TouchContact F)
      → List (GestureSlot F) × List (TouchContact F)
  unfolding slot_turn
  update_slots at i [] cs = ([], cs)
  update_slots at i (slot ∷ slots) cs =
      let contact = deref cs (at i) in
      let cs' = if is_residual slot contact then suppress cs (at i) else cs in
      let (slots', cs'') = update_slots at (i + 1) slots cs' in
      (slot_turn slot contact ∷ slots', cs'')

  abbrev pub at_output : GestureSlot F → ℤ → TouchContact F → TouchContact F
  at_output slot event c = record c {
    is_reported = true;
    report_event = event;
    x = slot.last_output_x;
    y = slot.last_output_y;
  }

  -- Phase 2 for one contact of a slot.
  unfoldable pub rewrite_for : GesturePhase → GestureSlot F → TouchContact F → TouchContact F
  rewrite_for idle slot c = unreport c
  rewrite_for press_candidate slot c =
      if leb (u16 cfg.press_candidate_frames) slot.stable_frames
      then at_output slot touch_report_down c
      else unreport c
  rewrite_for _ slot c = at_output slot touch_report_move c

  unfoldable pub rewrite_contact : List (GestureSlot F) → TouchContact F → TouchContact F
  unfolding rewrite_for
  rewrite_contact slots c = elim (slot_index c.id) [
    | none ↦ c
    | some i ↦ elim (get_elem? slots i) [ none ↦ c | some slot ↦ rewrite_for slot.phase slot c ]
  ]

  abbrev pub is_overdue : GestureSlot F → Bool
  is_overdue slot =
      is_release_pending slot.phase && ltb (u16 cfg.release_pending_frames) slot.missing_frames

  unfoldable pub up_event : ℕ → GestureSlot F → TouchContact F
  up_event i slot = record (default_contact fl.zero_f) {
    id = pos (i + 1);
    x = slot.last_output_x;
    y = slot.last_output_y;
    state = touch_state_up;
    area = slot.area;
    signal_sum = slot.signal_sum;
    size_mm = slot.size_mm;
    is_edge = slot.is_edge;
    is_reported = true;
    report_event = touch_report_up;
    life_flags = touch_life_lift_off;
    report_flags = 0;
  }

  abbrev pub after_up : GestureSlot F
  after_up = record (reset_slot fl.zero_f) { up_emitted = true }

  -- Phase 3 from slot `i` on.
  unfoldable pub emit_ups :
      ℕ
      → List (GestureSlot F)
      → List (TouchContact F)
      → List (GestureSlot F) × List (TouchContact F)
  unfolding up_event
  emit_ups i [] cs = ([], cs)
  emit_ups i (slot ∷ slots) cs =
      let (slots', cs') =
        emit_ups (i + 1) slots (if is_overdue slot then cs ++ (up_event i slot ∷ []) else cs) in
      ((if is_overdue slot then after_up else slot) ∷ slots', cs')

  unfoldable pub process :
      List (GestureSlot F) → List (TouchContact F) → List (GestureSlot F) × List (TouchContact F)
  unfolding contact_for_slot update_slots rewrite_contact emit_ups suppress
  process slots contacts =
      let (slots1, contacts1) = update_slots (contact_for_slot contacts) 0 slots contacts in
      emit_ups 0 slots1 (map (rewrite_contact slots1) contacts1)
