-- ===== src/Runtime/Recovery.antt =====
-- Runs of the worker alone: into recovery, out of it, and when it gives up.
use ego_touch_rev.Prelude.{
  ◌+◌, ◌≤◌, ◌<◌, ◌≡◌, arith, List, [], ◌∷◌, true, false, none, ◌⊎◌, inl, inr, length, All,
}
use ego_touch_rev.Afe.{Afe, BusPort, has_value}
use ego_touch_rev.Runtime.{Runtime, ChipPort, no_reason}
use ego_touch_rev.Runtime.WorkerState.{suspend, streaming, recover}
use ego_touch_rev.Runtime.Worker.{
  Outside, is_timeout, drain, drain_commands, take_stop_reason, on_streaming, on_recover,
  try_recovery, handle, iteration,
}
use ego_touch_rev.Runtime.Invariant.{drain-SameControl}

module _ {B : Type 0} (bus : BusPort B) (chip : ChipPort B) where
  -- Iterations of the worker with nobody else acting between them.
  unfoldable pub spin : List Outside → Runtime B → Runtime B
  spin [] r = r
  spin (o ∷ os) r = spin os (iteration bus chip o r).1

  abbrev Fails : Type 0
  Fails =
      (c : Afe B)
      → (has_value (chip.get_frame c).0 ≡ false) × (is_timeout (chip.get_frame c).0 ≡ false)

  streaming_error :
      (o : Outside) (r : Runtime B)
      → Fails
      → r.stop_reason ≡ no_reason
      → r.state ≡ streaming
      → let r' = (iteration bus chip o r).1 in
        (r'.stop_reason ≡ no_reason)
        × (((2 ≤ r.consecutive_frame_errors) × (r'.state ≡ recover))
            ⊎ ((r.consecutive_frame_errors < 2)
                × (r'.state ≡ streaming)
                × (r'.consecutive_frame_errors ≡ r.consecutive_frame_errors + 1)))
  unfolding iteration take_stop_reason drain_commands handle on_streaming
  streaming_error o r fails n st =
      ground
        (arith, drain-SameControl bus chip r.cmd_queue r, fails (drain bus chip r.cmd_queue r).chip)

  only-one :
      (os : List Outside) (r : Runtime B)
      → r.state ≡ recover
      → length os ≤ 0
      → (spin os r).state ≡ recover
  unfolding spin
  only-one [] r h le = h
  only-one (o ∷ os) r h le = ground arith

  -- A streaming worker whose chip fails every frame, by anything but a timeout, is in recovery after
  -- three frames in a row, less the failures already counted.
  pub errors_reach_recovery :
      (os : List Outside) (r : Runtime B)
      → Fails
      → r.stop_reason ≡ no_reason
      → r.state ≡ streaming
      → length os + r.consecutive_frame_errors ≡ 3
      → r.consecutive_frame_errors ≤ 2
      → (spin os r).state ≡ recover
  unfolding spin
  errors_reach_recovery [] r fails n st e le = absurd (omega arith)
  errors_reach_recovery (o ∷ os) r fails n st e le =
      let (n', next) = streaming_error o r fails n st in
      elim next [
        | inl (two, rec) ↦ only-one os (iteration bus chip o r).1 rec (omega arith)
        | inr (few, st', count) ↦
            errors_reach_recovery os (iteration bus chip o r).1 fails n' st' (omega arith)
              (omega arith)
      ]

  -- The attempts never have a stop reason raised while they wait.
  abbrev Undisturbed : Outside → Type 0
  Undisturbed o = o.raised ≡ none

  recovery_fails :
      (o : Outside) (r : Runtime B)
      → ((c : Afe B) → has_value (chip.check_bus c).0 ≡ false)
      → Undisturbed o
      → r.stop_reason ≡ no_reason
      → r.state ≡ recover
      → let r' = (iteration bus chip o r).1 in
        (r'.stop_reason ≡ no_reason)
        × (((30 ≤ r.recover_count) × (r'.state ≡ suspend) × (r'.recover_count ≡ 0))
            ⊎ ((r.recover_count < 30)
                × (r'.state ≡ recover)
                × (r'.recover_count ≡ r.recover_count + 1)))
  unfolding iteration take_stop_reason drain_commands handle on_recover try_recovery
  recovery_fails o r dead u n st =
      ground
        (arith, drain-SameControl bus chip r.cmd_queue r, dead (drain bus chip r.cmd_queue r).chip)

  only-suspended :
      (os : List Outside) (r : Runtime B)
      → (r.state ≡ suspend) × (r.recover_count ≡ 0)
      → length os ≤ 0
      → ((spin os r).state ≡ suspend) × ((spin os r).recover_count ≡ 0)
  unfolding spin
  only-suspended [] r h le = h
  only-suspended (o ∷ os) r h le = ground arith

  -- A worker in recovery whose bus never answers, and whom nobody stops, is suspended with its count
  -- cleared after 31 iterations, less the attempts already counted: recovery is not tried for ever.
  pub recovery_gives_up :
      (os : List Outside) (r : Runtime B)
      → ((c : Afe B) → has_value (chip.check_bus c).0 ≡ false)
      → All Undisturbed os
      → r.stop_reason ≡ no_reason
      → r.state ≡ recover
      → r.recover_count ≤ 30
      → length os + r.recover_count ≡ 31
      → ((spin os r).state ≡ suspend) × ((spin os r).recover_count ≡ 0)
  unfolding spin
  recovery_gives_up [] r dead u n st le e = absurd (omega arith)
  recovery_gives_up (o ∷ os) r dead (u, us) n st le e =
      let (n', next) = recovery_fails o r dead u n st in
      elim next [
        | inl (last, s, c) ↦ only-suspended os (iteration bus chip o r).1 (s, c) (omega arith)
        | inr (more, st', count) ↦
            recovery_gives_up os (iteration bus chip o r).1 dead us n' st' (omega arith)
              (omega arith)
      ]

  -- An undisturbed attempt below the limit at which the bus answers and the chip initialises ends the
  -- recovery: the worker streams again, with its count cleared.
  pub recovery_succeeds :
      (o : Outside) (r : Runtime B)
      → ((c : Afe B) → has_value (chip.check_bus c).0 ≡ true)
      → ((c : Afe B) → has_value (chip.init c).0 ≡ true)
      → Undisturbed o
      → r.stop_reason ≡ no_reason
      → r.state ≡ recover
      → r.recover_count < 30
      → let r' = (iteration bus chip o r).1 in (r'.state ≡ streaming) × (r'.recover_count ≡ 0)
  unfolding iteration take_stop_reason drain_commands handle on_recover try_recovery
  recovery_succeeds o r alive good u n st le =
      let c = (drain bus chip r.cmd_queue r).chip in
      ground (arith, drain-SameControl bus chip r.cmd_queue r, alive c, good (chip.check_bus c).1)
