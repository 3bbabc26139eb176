-- ===== src/Gesture/Lifecycle.antt =====
-- The life of a touch on one slot, over any sequence of frames.
use ego_touch_rev.Prelude.{
  ℕ, zero, suc, ◌+◌, ◌<◌, List, [], ◌∷◌, Bool, true, false, not, ◌&&◌, Option, none, some, ◌≡◌,
  refl, arith, ◌⊎◌, ap, ◌∙◌, replicate,
}
use ego_touch_rev.Prelude.Float.{FloatOps}
use ego_touch_rev.Engine.{TouchContact}
use ego_touch_rev.Gesture.{GestureSlot, Tuning, reset_slot}
use ego_touch_rev.Gesture.GesturePhase.{press_candidate, dragging, long_press_hold, release_pending}
use ego_touch_rev.Gesture.Slot.{update_slot}
use ego_touch_rev.Gesture.Process.{slot_turn, after_up, is_idle}
use ego_touch_rev.Gesture.Invariant.{
  IsValid, InRange, slot_frame, slot_frame-IsValid, reset-IsValid,
}

abbrev pub bit : Bool → ℕ
bit true = 1
bit false = 0

-- What happened on a slot: how many touches began (T1), how many Ups were emitted.
pub record Tally : Type 0 where
  pub presses : ℕ
  pub ups : ℕ

module _ {F : Type 0} (fl : FloatOps F) (cfg : Tuning F) where
  -- A touch begins in a frame that takes an idle slot out of its phase.
  abbrev pub began : GestureSlot F → Option (TouchContact F) → Bool
  began s o = is_idle s.phase && not (is_idle (slot_turn fl cfg s o).phase)

  abbrev pub tally : Tally → GestureSlot F → Option (TouchContact F) → Tally
  tally t s o = record {
    presses = t.presses + bit (began s o);
    ups = t.ups + bit (slot_frame fl cfg s o).1;
  }

  -- A slot over a sequence of frames.
  unfoldable pub run :
      GestureSlot F → Tally → List (Option (TouchContact F)) → GestureSlot F × Tally
  run s t [] = (s, t)
  run s t (o ∷ os) = run (slot_frame fl cfg s o).0 (tally t s o) os

  run-IsValid :
      (s : GestureSlot F) (t : Tally) (os : List (Option (TouchContact F)))
      → InRange cfg
      → IsValid cfg s
      → IsValid cfg (run s t os).0
  unfolding run
  run-IsValid s t [] r v = v
  run-IsValid s t (o ∷ os) r v =
      run-IsValid (slot_frame fl cfg s o).0 (tally t s o) os r (slot_frame-IsValid fl cfg s o r v)

  -- Whatever the contacts do from the first frame on, the invariant of the slot holds.
  pub run-reset-IsValid :
      (os : List (Option (TouchContact F)))
      → InRange cfg
      → IsValid cfg (run (reset_slot fl.zero_f) (record { presses = 0; ups = 0 }) os).0
  run-reset-IsValid os r = run-IsValid (reset_slot fl.zero_f) _ os r (reset-IsValid fl cfg)

  frame_balance :
      (s : GestureSlot F) (o : Option (TouchContact F))
      → IsValid cfg s
      → bit (not (is_idle s.phase)) + bit (began s o)
        ≡ bit (not (is_idle (slot_frame fl cfg s o).0.phase)) + bit (slot_frame fl cfg s o).1
  unfolding slot_frame slot_turn update_slot
  frame_balance s o v = ground arith

  run_balance :
      (s : GestureSlot F) (t : Tally) (os : List (Option (TouchContact F)))
      → InRange cfg
      → IsValid cfg s
      → (run s t os).1.presses + t.ups + bit (not (is_idle s.phase))
        ≡ (run s t os).1.ups + t.presses + bit (not (is_idle (run s t os).0.phase))
  unfolding run
  run_balance s t [] r v = omega arith
  run_balance s t (o ∷ os) r v = omega (
    arith,
    frame_balance s o v,
    run_balance (slot_frame fl cfg s o).0 (tally t s o) os r (slot_frame-IsValid fl cfg s o r v),
  )

  -- Over any frames from the start, with the tuning in the range that `LoadConfig` allows, the
  -- touches that began are the Ups emitted and, if the slot is not idle, the one in progress: each
  -- touch gets exactly one Up.
  pub one_up_per_touch :
      (os : List (Option (TouchContact F)))
      → InRange cfg
      → let (s, t) = run (reset_slot fl.zero_f) (record { presses = 0; ups = 0 }) os in
        t.presses ≡ t.ups + bit (not (is_idle s.phase))
  one_up_per_touch os r = omega (
    arith,
    run_balance (reset_slot fl.zero_f) (record { presses = 0; ups = 0 }) os r
        (reset-IsValid fl cfg),
  )

  after_up_frame :
      (o : Option (TouchContact F))
      → slot_frame fl cfg (after_up fl cfg) o ≡ (reset_slot fl.zero_f, false)
  unfolding slot_frame slot_turn
  after_up_frame none = refl
  after_up_frame (some c) = refl

  -- The frame after an Up emits none and leaves the slot as new, whatever contact comes.
  pub quiet_after_up :
      (s : GestureSlot F) (o next : Option (TouchContact F))
      → (slot_frame fl cfg s o).1 ≡ true
      → slot_frame fl cfg (slot_frame fl cfg s o).0 next ≡ (reset_slot fl.zero_f, false)
  quiet_after_up s o next h = ap (λ t. slot_frame fl cfg t next) (up_resets h) ∙ after_up_frame next
    where
      up_resets : (slot_frame fl cfg s o).1 ≡ true → (slot_frame fl cfg s o).0 ≡ after_up fl cfg
      up_resets e = unfold slot_frame in rw e

  -- A drag or a long press whose contact goes emits its Up in that frame; the slot is then waiting
  -- out its quiet frame.
  pub release_is_immediate :
      (s : GestureSlot F)
      → InRange cfg
      → (s.phase ≡ dragging) ⊎ (s.phase ≡ long_press_hold)
      → slot_frame fl cfg s none ≡ (after_up fl cfg, true)
  unfolding slot_frame slot_turn update_slot
  release_is_immediate s r p = ground arith

  pending_step :
      (s : GestureSlot F)
      → InRange cfg
      → s.phase ≡ release_pending
      → s.missing_frames < cfg.release_pending_frames
      → ((slot_frame fl cfg s none).0.phase ≡ release_pending)
        × ((slot_frame fl cfg s none).0.missing_frames ≡ s.missing_frames + 1)
        × (bit (slot_frame fl cfg s none).1 ≡ 0)
  unfolding slot_frame slot_turn update_slot
  pending_step s r p m = ground arith

  -- `n` more frames without a contact, in a slot that has missed some.
  pending_frames :
      (n : ℕ) (s : GestureSlot F) (t : Tally)
      → InRange cfg
      → s.phase ≡ release_pending
      → s.missing_frames + n ≡ cfg.release_pending_frames
      → let (u, t') = run s t (replicate (suc n) none) in
        (u ≡ after_up fl cfg) × (t'.ups ≡ t.ups + 1)
  unfolding run
  pending_frames zero s t r p m = unfold slot_frame slot_turn update_slot in ground arith
  pending_frames (suc n) s t r p m =
      let (still, later, silent) = pending_step s r p (omega arith) in
      let (ends, counted) =
        pending_frames n (slot_frame fl cfg s none).0 (tally t s none) r still (omega arith) in
      (ends, omega (arith, counted, silent))

  press_gone :
      (s : GestureSlot F)
      → InRange cfg
      → s.phase ≡ press_candidate
      → 0 < cfg.release_pending_frames
      → ((slot_frame fl cfg s none).0.phase ≡ release_pending)
        × ((slot_frame fl cfg s none).0.missing_frames ≡ 1)
        × (bit (slot_frame fl cfg s none).1 ≡ 0)
  unfolding slot_frame slot_turn update_slot
  press_gone s r p h = ground arith

  press_gone_at_once :
      (s : GestureSlot F)
      → s.phase ≡ press_candidate
      → cfg.release_pending_frames ≡ 0
      → slot_frame fl cfg s none ≡ (after_up fl cfg, true)
  unfolding slot_frame slot_turn update_slot
  press_gone_at_once s p h = ground arith

  -- A press candidate that loses its contact emits one Up within `release_pending_frames + 1` such
  -- frames, and is then waiting out its quiet frame. `g` is the grace window of the tuning.
  pub tap_is_released :
      (g : ℕ) (s : GestureSlot F) (t : Tally)
      → InRange cfg
      → s.phase ≡ press_candidate
      → cfg.release_pending_frames ≡ g
      → let (u, t') = run s t (replicate (suc g) none) in
        (u ≡ after_up fl cfg) × (t'.ups ≡ t.ups + 1)
  unfolding run
  tap_is_released zero s t r p h =
      let e = press_gone_at_once s p h in (ap (λ u. u.0) e, ap (λ u. t.ups + bit u.1) e)
  tap_is_released (suc g) s t r p h =
      let (still, once, silent) = press_gone s r p (omega arith) in
      let (ends, counted) =
        pending_frames g (slot_frame fl cfg s none).0 (tally t s none) r still (omega arith) in
      (ends, omega (arith, counted, silent))
