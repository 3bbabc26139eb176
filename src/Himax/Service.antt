-- ===== src/Himax/Service.antt =====
-- The runtime on the chip: DeviceRuntime with the ports that Chip and its controller fill.
use ego_touch_rev.Prelude.{
  ℕ, ◌≡◌, refl, ◌∙◌, arith, List, [], ◌∷◌, false, some, Option-cases, inl, inr,
}
use ego_touch_rev.Afe.{
  AfeCommand, unexpected, invalid_operation, Afe, BusPort, unconnected, afe_send_command,
}
use ego_touch_rev.Afe.Bus.{command-Follows}
use ego_touch_rev.Afe.Guards.{command_needs_connection}
use ego_touch_rev.Runtime.{
  WorkerState, EventType, QueuedCommand, Runtime, ChipPort, submit_command, clear_history,
}
use ego_touch_rev.Runtime.WorkerState.{suspend}
use ego_touch_rev.Runtime.Worker.{
  Outside, drain, drain_commands, take_stop_reason, on_ready, on_streaming, on_suspend,
  try_recovery, on_recover, on_quit, handle, iteration,
}
use ego_touch_rev.Runtime.Control.{start, stop, wake, respond, ingest_system_event, noted}
use ego_touch_rev.Runtime.Session.{
  Call, iterate, ingest, submit, start_call, clear_call, stop_call, set_auto_mode, set_touch_only,
  set_stylus_vhf, step, life, new_runtime,
}
use ego_touch_rev.Runtime.Invariant.{drain-SameControl, track_stylus-SameControl}
use ego_touch_rev.Runtime.Ports.{life-keeps}
use ego_touch_rev.Himax.{Board}
use ego_touch_rev.Himax.Hal.{Os}
use ego_touch_rev.Himax.Init.{bus_port}
use ego_touch_rev.Himax.Frame.{chip_port}
use ego_touch_rev.Himax.Counters.{IsSound, chip_port-keeps}
use ego_touch_rev.Himax.Connection.{hold_reset-disconnects}

module _ {W : Type 0} (os : Os W) where
  -- Whatever calls a runtime's life has and whatever the system answers to any request, the chip under it
  -- stays sound: its command slot is one of the five, it has counted fewer than 600 empty frames, and its
  -- frame buffer still has its 6000 bytes.
  pub chip_stays-IsSound :
      (cs : List Call) (r r' : Runtime (Board W))
      → life (bus_port os) (chip_port os) cs r ≡ some r'
      → IsSound r.chip
      → IsSound r'.chip
  chip_stays-IsSound cs r r' e s = life-keeps (chip_port-keeps os) cs r r' e s

-- The reset line is held: a worker that rests in suspend has let go of its chip.
pub record IsAtRest {B : Type 0} (r : Runtime B) : Type 0 where
  pub held : r.state ≡ suspend → r.need_suspend_deinit ≡ false → r.chip.conn_state ≡ unconnected

module _ {B : Type 0} (bus : BusPort B) (chip : ChipPort B)
    (holds : (a : Afe B) → (chip.hold_reset a).conn_state ≡ unconnected)
    (cancels : (a : Afe B) → (chip.cancel_pending_frame_read a).conn_state ≡ a.conn_state) where
  drain-conn :
      (queue : List QueuedCommand) (r : Runtime B)
      → (drain bus chip queue r).chip.conn_state ≡ r.chip.conn_state
  unfolding drain
  drain-conn [] r = refl
  drain-conn (qc ∷ queue) r =
      drain-conn queue _
      ∙ (command-Follows {P = λ b. Unit {0}} {port = bus}
          (record { send_keeps = λ op v b u. tt; policy_keeps = λ block ms b u. tt }) qc.cmd
          qc.param r.chip).conn

  drain-IsAtRest : (r : Runtime B) → IsAtRest r → IsAtRest (drain_commands bus chip r)
  unfolding drain_commands
  drain-IsAtRest r rest =
      ground (arith, drain-SameControl bus chip r.cmd_queue r, drain-conn r.cmd_queue r)

  take_stop_reason-IsAtRest : (r : Runtime B) → IsAtRest r → IsAtRest (take_stop_reason bus chip r)
  unfolding take_stop_reason
  take_stop_reason-IsAtRest r rest = ground arith

  handle-IsAtRest :
      (o : Outside) (s : WorkerState) (r : Runtime B)
      → s ≡ r.state
      → IsAtRest r
      → IsAtRest (handle bus chip o s r).1
  unfolding handle on_ready on_suspend on_quit on_recover try_recovery on_streaming
  handle-IsAtRest o s r e rest =
      let r1 = record r { chip = (chip.get_frame r.chip).1; consecutive_frame_errors = 0 } in
      ground (arith, holds r.chip, track_stylus-SameControl bus chip o.bt_freq r1)

  iteration-IsAtRest :
      (o : Outside) (r : Runtime B) → IsAtRest r → IsAtRest (iteration bus chip o r).1
  unfolding iteration
  iteration-IsAtRest o r rest =
      let r1 = drain_commands bus chip (take_stop_reason bus chip r) in
      handle-IsAtRest o r1.state r1 refl (drain-IsAtRest _ (take_stop_reason-IsAtRest r rest))

  wake-IsAtRest :
      (o : Outside) (r r' : Runtime B) → wake bus chip o r ≡ some r' → IsAtRest r → IsAtRest r'
  unfolding wake start stop
  wake-IsAtRest o r r' e rest = ground arith

  respond-IsAtRest :
      (o : Outside) (ev : EventType) (r r' : Runtime B)
      → respond bus chip o ev r ≡ some r'
      → IsAtRest r
      → IsAtRest r'
  respond-IsAtRest o ev r r' e rest = ground (arith, cancels r.chip, wake-IsAtRest o r r')

  step-IsAtRest :
      (c : Call) (r r' : Runtime B) → step bus chip c r ≡ some r' → IsAtRest r → IsAtRest r'
  unfolding step submit_command clear_history start ingest_system_event stop
  step-IsAtRest (iterate o) r r' e rest = ground (arith, iteration-IsAtRest o r)
  step-IsAtRest (ingest o now ev) r r' e rest = ground (
    arith,
    respond-IsAtRest o ev
        (record r { last_event_by_type = noted bus chip ev now r.last_event_by_type }) r',
  )
  step-IsAtRest (submit cmd param source reason) r r' e rest = ground arith
  step-IsAtRest start_call r r' e rest = ground arith
  step-IsAtRest clear_call r r' e rest = ground arith
  step-IsAtRest (stop_call o) r r' e rest = ground arith
  step-IsAtRest (set_auto_mode b) r r' e rest = ground arith
  step-IsAtRest (set_touch_only b) r r' e rest = ground arith
  step-IsAtRest (set_stylus_vhf b) r r' e rest = ground arith

  pub life-IsAtRest :
      (cs : List Call) (r r' : Runtime B) → life bus chip cs r ≡ some r' → IsAtRest r → IsAtRest r'
  unfolding life
  life-IsAtRest [] r r' e rest = ground arith
  life-IsAtRest (c ∷ cs) r r' e rest = elim (Option-cases (step bus chip c r)) [
    | inl none_e ↦ ground (arith, none_e)
    | inr (r1, some_e) ↦
        life-IsAtRest cs r1 r' (ground (arith, some_e)) (step-IsAtRest c r r1 some_e rest)
  ]

module _ {W : Type 0} (os : Os W) where
  -- A runtime that was made new around any chip and whose worker, after any life, rests in suspend with
  -- nothing left to shut down, has a chip that is not connected: every command that the worker takes from
  -- the queue fails with InvalidOperation and touches nothing.
  pub suspended_chip_is_silent :
      (cs : List Call) (a : Afe (Board W)) (r : Runtime (Board W)) (c : AfeCommand) (param : ℕ)
      → life (bus_port os) (chip_port os) cs (new_runtime a) ≡ some r
      → r.state ≡ suspend
      → r.need_suspend_deinit ≡ false
      → (r.chip.conn_state ≡ unconnected)
        × (afe_send_command (bus_port os) c param r.chip ≡ (unexpected invalid_operation, r.chip))
  unfolding chip_port
  suspended_chip_is_silent cs a r c param e s n =
      let rest =
        life-IsAtRest (bus_port os) (chip_port os) (hold_reset-disconnects os) (λ c. refl) cs
          (new_runtime a) r e (ground arith) in
      let off = rest.held s n in
      (off, command_needs_connection (bus_port os) c param r.chip (rw off refl))
