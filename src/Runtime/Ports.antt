-- ===== src/Runtime/Ports.antt =====
-- What the runtime does to its chip: it reaches it through the two ports, and writes its stylus state.
use ego_touch_rev.Prelude.{ℕ, ◌≡◌, arith, List, [], ◌∷◌, Option, none, some, Option-cases, inl, inr}
use ego_touch_rev.Afe.{AfeCommand, StylusState, Afe, BusPort, afe_send_command}
use ego_touch_rev.Afe.Stylus.{process_stylus_status, update_bt_heartbeat}
use ego_touch_rev.Runtime.{
  WorkerState, StopReason, shutdown, EventType, QueuedCommand, Runtime, ChipPort, submit_command,
  clear_history,
}
use ego_touch_rev.Runtime.Worker.{
  Outside, drain, drain_commands, take_stop_reason, on_ready, on_streaming, track_stylus,
  on_suspend, try_recovery, on_recover, on_quit, handle, iteration,
}
use ego_touch_rev.Runtime.Control.{start, stop, wake, respond, ingest_system_event, noted}
use ego_touch_rev.Runtime.Session.{
  Call, iterate, ingest, submit, start_call, clear_call, stop_call, set_auto_mode, set_touch_only,
  set_stylus_vhf, step, life,
}

-- A property of the chip that the ports' operations keep, and that does not depend on the stylus.
pub record ChipKeeps {B : Type 0} (P : Afe B → Type 0) (bus : BusPort B) (chip : ChipPort B)
    : Type 0 where
  pub command :
      (c : AfeCommand) (param : ℕ) (a : Afe B) → P a → P (afe_send_command bus c param a).1
  pub stylus : (a : Afe B) (s : StylusState) → P a → P (record a { stylus = s })
  pub init : (a : Afe B) → P a → P (chip.init a).1
  pub deinit : (a : Afe B) → P a → P (chip.deinit a)
  pub check_bus : (a : Afe B) → P a → P (chip.check_bus a).1
  pub get_frame : (a : Afe B) → P a → P (chip.get_frame a).1
  pub hold_reset : (a : Afe B) → P a → P (chip.hold_reset a)
  pub cancel : (a : Afe B) → P a → P (chip.cancel_pending_frame_read a)

module _ {B : Type 0} {P : Afe B → Type 0} {bus : BusPort B} {chip : ChipPort B}
    (keeps : ChipKeeps P bus chip) where
  drain-keeps :
      (queue : List QueuedCommand) (r : Runtime B) → P r.chip → P (drain bus chip queue r).chip
  unfolding drain
  drain-keeps [] r h = h
  drain-keeps (qc ∷ queue) r h = drain-keeps queue _ (keeps.command qc.cmd qc.param r.chip h)

  take_stop_reason-chip : (r : Runtime B) → (take_stop_reason bus chip r).chip ≡ r.chip
  unfolding take_stop_reason
  take_stop_reason-chip r = ground arith

  track_stylus-keeps :
      (freq : Option (ℕ × ℕ)) (r : Runtime B) → P r.chip → P (track_stylus bus chip freq r).chip
  unfolding track_stylus submit_command
  track_stylus-keeps none r h =
      ground
        (arith, keeps.stylus r.chip (process_stylus_status r.chip.frame_buffer r.chip.stylus).1 h)
  track_stylus-keeps (some (f1, f2)) r h = ground (
    arith,
    keeps.stylus r.chip
        (process_stylus_status r.chip.frame_buffer (update_bt_heartbeat f1 f2 r.chip.stylus)).1 h,
  )

  on_streaming-keeps :
      (freq : Option (ℕ × ℕ)) (r : Runtime B) → P r.chip → P (on_streaming bus chip freq r).chip
  unfolding on_streaming
  on_streaming-keeps freq r h =
      let c = (chip.get_frame r.chip).1 in
      let r1 = record r { chip = c; consecutive_frame_errors = 0 } in
      ground (arith, keeps.get_frame r.chip h, track_stylus-keeps freq r1)

  on_recover-keeps :
      (raised : Option StopReason) (r : Runtime B)
      → P r.chip
      → P (on_recover bus chip raised r).chip
  unfolding on_recover try_recovery
  on_recover-keeps raised r h =
      ground (arith, keeps.check_bus r.chip h, keeps.init (chip.check_bus r.chip).1)

  handle-keeps :
      (o : Outside) (s : WorkerState) (r : Runtime B) → P r.chip → P (handle bus chip o s r).1.chip
  unfolding handle on_ready on_suspend on_quit
  handle-keeps o s r h = ground (
    arith,
    on_streaming-keeps o.bt_freq r h,
    on_recover-keeps o.raised r h,
    keeps.init r.chip h,
    keeps.hold_reset r.chip h,
    keeps.deinit r.chip h,
  )

  iteration-keeps : (o : Outside) (r : Runtime B) → P r.chip → P (iteration bus chip o r).1.chip
  unfolding iteration drain_commands
  iteration-keeps o r h =
      let r1 = take_stop_reason bus chip r in
      let r2 = drain_commands bus chip r1 in
      handle-keeps o r2.state r2 (drain-keeps r1.cmd_queue r1 (rw (take_stop_reason-chip r) h))

  stop-keeps : (o : Outside) (r : Runtime B) → P r.chip → P (stop bus chip o r).chip
  unfolding stop
  stop-keeps o r h = ground (arith, iteration-keeps o (record r { stop_reason = shutdown }) h)

  wake-keeps : (o : Outside) (r r' : Runtime B) → wake bus chip o r ≡ some r' → P r.chip → P r'.chip
  unfolding wake start
  wake-keeps o r r' e h = ground (arith, stop-keeps o r h)

  respond-keeps :
      (o : Outside) (ev : EventType) (r r' : Runtime B)
      → respond bus chip o ev r ≡ some r'
      → P r.chip
      → P r'.chip
  respond-keeps o ev r r' e h = ground (arith, wake-keeps o r r', keeps.cancel r.chip h)

  step-keeps : (c : Call) (r r' : Runtime B) → step bus chip c r ≡ some r' → P r.chip → P r'.chip
  unfolding step submit_command clear_history start ingest_system_event
  step-keeps (iterate o) r r' e h = ground (arith, iteration-keeps o r h)
  step-keeps (ingest o now ev) r r' e h = ground (
    arith,
    respond-keeps o ev
        (record r { last_event_by_type = noted bus chip ev now r.last_event_by_type }) r',
  )
  step-keeps (submit cmd param source reason) r r' e h = ground arith
  step-keeps start_call r r' e h = ground arith
  step-keeps clear_call r r' e h = ground arith
  step-keeps (stop_call o) r r' e h = ground (arith, stop-keeps o r h)
  step-keeps (set_auto_mode b) r r' e h = ground arith
  step-keeps (set_touch_only b) r r' e h = ground arith
  step-keeps (set_stylus_vhf b) r r' e h = ground arith

  -- What the chip's operations and the commands keep holds of the chip through a whole life.
  pub life-keeps :
      (cs : List Call) (r r' : Runtime B) → life bus chip cs r ≡ some r' → P r.chip → P r'.chip
  unfolding life
  life-keeps [] r r' e h = ground arith
  life-keeps (c ∷ cs) r r' e h = elim (Option-cases (step bus chip c r)) [
    | inl none_e ↦ ground (arith, none_e)
    | inr (r1, some_e) ↦ life-keeps cs r1 r' (ground (arith, some_e)) (step-keeps c r r1 some_e h)
  ]
