-- ===== src/Gesture/LongPress.antt =====
-- A finger that rests in one place.
use ego_touch_rev.Prelude.{
  ℕ, zero, suc, ◌+◌, ◌≤◌, ◌<◌, true, false, some, ◌≡◌, arith, ◌⊎◌, replicate, max,
}
use native.Mathlib.Nat.{zero-add, suc-add, add-suc}
use ego_touch_rev.Prelude.Float.{FloatOps}
use ego_touch_rev.Engine.{TouchContact}
use ego_touch_rev.Gesture.{GestureSlot, Tuning, reset_slot}
use ego_touch_rev.Gesture.GesturePhase.{press_candidate, long_press_hold}
use ego_touch_rev.Gesture.Slot.{update_slot, beyond_drag, within_tolerance}
use ego_touch_rev.Gesture.Process.{slot_turn}
use ego_touch_rev.Gesture.Invariant.{InRange, slot_frame}
use ego_touch_rev.Gesture.Lifecycle.{Tally, tally, run}

module _ {F : Type 0} (fl : FloatOps F) (cfg : Tuning F) (c : TouchContact F)
    (r : InRange cfg) where
  -- A slot that the contact `c` has pressed, `age` frames ago at most.
  record IsPressedBy (s : GestureSlot F) : Type 0 where
    at_x : s.anchor_x ≡ c.x
    at_y : s.anchor_y ≡ c.y
    shown_x : s.last_output_x ≡ c.x
    shown_y : s.last_output_y ≡ c.y

  IsHeld : ℕ → GestureSlot F → Type 0
  IsHeld n s =
      ((s.phase ≡ press_candidate) × (s.age_frames ≡ n) × (n < max cfg.long_press_frames 2))
      ⊎ ((s.phase ≡ long_press_hold) × (max cfg.long_press_frames 2 ≤ n))

  -- The contact does not move, as the tuning measures it.
  abbrev Rests : Type 0
  Rests =
      (fl.lt_f (fl.mul_f cfg.drag_threshold cfg.drag_threshold) (
          fl.add_f (fl.mul_f (fl.sub_f c.x c.x) (fl.sub_f c.x c.x))
            (fl.mul_f (fl.sub_f c.y c.y) (fl.sub_f c.y c.y)))
        ≡ false)
      × (fl.le_f
            (fl.add_f (fl.mul_f (fl.sub_f c.x c.x) (fl.sub_f c.x c.x))
              (fl.mul_f (fl.sub_f c.y c.y) (fl.sub_f c.y c.y)))
            (fl.mul_f cfg.long_press_move_tolerance cfg.long_press_move_tolerance)
          ≡ true)

  first_frame :
      IsPressedBy (slot_frame fl cfg (reset_slot fl.zero_f) (some c)).0
      × IsHeld 1 (slot_frame fl cfg (reset_slot fl.zero_f) (some c)).0
  unfolding slot_frame slot_turn update_slot IsHeld
  first_frame = ground arith

  -- `beyond_drag` and `within_tolerance` at a slot that `c` has pressed.
  not_beyond : (s : GestureSlot F) → Rests → IsPressedBy s → beyond_drag fl cfg s c ≡ false
  not_beyond s h p = rw (p.at_x, p.at_y) h.0

  tolerated : (s : GestureSlot F) → Rests → IsPressedBy s → within_tolerance fl cfg s c ≡ true
  tolerated s h p = rw (p.at_x, p.at_y) h.1

  next_frame :
      (n : ℕ) (s : GestureSlot F)
      → 1 ≤ n
      → Rests
      → IsPressedBy s
      → IsHeld n s
      → IsPressedBy (slot_frame fl cfg s (some c)).0
        × IsHeld (suc n) (slot_frame fl cfg s (some c)).0
  unfolding slot_frame slot_turn update_slot IsHeld
  next_frame n s pos_n h p e = ground (arith, not_beyond s h p, tolerated s h p)

  later_frames :
      (n k : ℕ) (s : GestureSlot F) (t : Tally)
      → 1 ≤ n
      → Rests
      → IsPressedBy s
      → IsHeld n s
      → IsPressedBy (run fl cfg s t (replicate k (some c))).0
        × IsHeld (k + n) (run fl cfg s t (replicate k (some c))).0
  unfolding run
  later_frames n zero s t pos_n h p e = (p, rw zero-add e)
  later_frames n (suc k) s t pos_n h p e =
      let (p', e') = next_frame n s pos_n h p e in
      rw (suc-add k n, ← add-suc k n)
        (later_frames (suc n) k (slot_frame fl cfg s (some c)).0 (tally fl cfg t s (some c))
          (omega arith) h p' e')

  -- With the tuning in range, a contact that rests, as the two distance tests see it, from its first
  -- frame on is shown where it came down. Before frame `long_press_frames` (2 at least) the slot is a
  -- press candidate, and from that frame on a long press.
  pub rest_becomes_long_press :
      (n : ℕ)
      → Rests
      → let s =
          (run fl cfg
            (reset_slot fl.zero_f)
            (record { presses = 0; ups = 0 })
            (replicate (suc n) (some c))).0 in
        (s.last_output_x ≡ c.x)
        × (s.last_output_y ≡ c.y)
        × (suc n < max cfg.long_press_frames 2 → s.phase ≡ press_candidate)
        × (max cfg.long_press_frames 2 ≤ suc n → s.phase ≡ long_press_hold)
  unfolding run IsHeld
  rest_becomes_long_press n h = ground (
    arith,
    first_frame,
    later_frames 1 n (slot_frame fl cfg (reset_slot fl.zero_f) (some c)).0
        (tally fl cfg (record { presses = 0; ups = 0 }) (reset_slot fl.zero_f) (some c))
        (omega arith) h first_frame.0 first_frame.1,
  )
