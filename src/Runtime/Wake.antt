-- ===== src/Runtime/Wake.antt =====
-- How stop reasons and system events move the worker.
use ego_touch_rev.Prelude.{
  ℕ, ◌≡◌, arith, [], Bool, true, false, none, some, ◌≢◌, inl, inr, Option-cases, ◌∙◌,
}
use ego_touch_rev.Afe.{BusPort}
use ego_touch_rev.Runtime.{
  EventType, display_on, lid_on, resume_automatic, Runtime, ChipPort, no_reason, screen_off,
  shutdown,
}
use ego_touch_rev.Runtime.WorkerState.{suspend, quit, ready}
use ego_touch_rev.Runtime.Thread.{live, returned}
use ego_touch_rev.Runtime.Worker.{
  Outside, drain, drain_commands, take_stop_reason, on_suspend, on_quit, handle, iteration,
}
use ego_touch_rev.Runtime.Control.{start, stop, wake, ingest_system_event, is_fresh, noted}
use ego_touch_rev.Runtime.Invariant.{IsValid}

-- The wake events.
abbrev pub is_wake : EventType → Bool
is_wake display_on = true
is_wake lid_on = true
is_wake resume_automatic = true
is_wake _ = false

module _ {B : Type 0} (bus : BusPort B) (chip : ChipPort B) where
  -- A worker that finds the reason ScreenOff goes, whatever it was doing, into suspend with the chip
  -- held in reset; the reason is used up and no command is left in the queue or sent.
  pub screen_off_suspends :
      (o : Outside) (r : Runtime B)
      → r.stop_reason ≡ screen_off
      → iteration bus chip o r ≡ (
        false,
        record r {
          stop_reason = no_reason;
          state = suspend;
          need_suspend_deinit = false;
          cmd_queue = [];
          chip = chip.hold_reset r.chip;
        },
      )
  unfolding iteration take_stop_reason drain_commands drain handle on_suspend
  screen_off_suspends o r h = ground arith

  -- A worker that finds the reason Shutdown returns in that iteration, from every state, with an empty
  -- queue.
  pub shutdown_quits :
      (o : Outside) (r : Runtime B)
      → r.stop_reason ≡ shutdown
      → let (done, r') = iteration bus chip o r in
        (done ≡ true)
        × (r'.state ≡ quit)
        × (r'.thread ≡ returned)
        × (r'.running ≡ false)
        × (r'.cmd_queue ≡ [])
  unfolding iteration take_stop_reason drain_commands drain handle on_quit
  shutdown_quits o r h = ground arith

  noted-IsValid :
      (now : ℕ) (ev : EventType) (r : Runtime B)
      → IsValid r
      → IsValid (record r { last_event_by_type = noted bus chip ev now r.last_event_by_type })
  noted-IsValid now ev r v = ground arith

  wake-starts : (o : Outside) (r : Runtime B) → IsValid r → wake bus chip o r ≢ none
  unfolding wake start stop
  wake-starts o r v h = ground arith

  wake-ready :
      (o : Outside) (r r' : Runtime B)
      → IsValid r
      → wake bus chip o r ≡ some r'
      → (r'.state ≡ ready) × (r'.running ≡ true) × (r'.thread ≡ live)
  unfolding wake start stop
  wake-ready o r r' v h = ground arith

  ingest-wakes :
      (o : Outside) (now : ℕ) (ev : EventType) (r : Runtime B)
      → is_wake ev ≡ true
      → is_fresh bus chip now (r.last_event_by_type ev) ≡ true
      → ingest_system_event bus chip o now ev r
        ≡ wake bus chip o
            (record r { last_event_by_type = noted bus chip ev now r.last_event_by_type })
  unfolding ingest_system_event
  ingest-wakes o now ev r w f = ground arith

  -- A wake event that is not debounced leaves every valid runtime with a live worker in the state
  -- ready: it resumes a suspended worker, and restarts every other one. It never ends the process.
  pub wake_makes_ready :
      (o : Outside) (now : ℕ) (ev : EventType) (r : Runtime B)
      → IsValid r
      → is_wake ev ≡ true
      → is_fresh bus chip now (r.last_event_by_type ev) ≡ true
      → (r' : Runtime B) × (ingest_system_event bus chip o now ev r ≡ some r')
        × (r'.state ≡ ready)
        × (r'.running ≡ true)
        × (r'.thread ≡ live)
  wake_makes_ready o now ev r v w f =
      let noted_r = record r { last_event_by_type = noted bus chip ev now r.last_event_by_type } in
      let v' = noted-IsValid now ev r v in
      elim (Option-cases (wake bus chip o noted_r)) [
        | inl e ↦ absurd (wake-starts o noted_r v' e)
        | inr (r', e) ↦
            let (ready', running', live') = wake-ready o noted_r r' v' e in
            (r', ingest-wakes o now ev r w f ∙ e, ready', running', live')
      ]

  -- A second event of sleep whose stop reason the suspended worker has not taken yet undoes the wake
  -- that follows it: after the wake event the runtime is ready, but the worker's next iteration takes
  -- the old reason and suspends again, with no further event.
  pub wake_is_lost :
      (o o' : Outside) (now : ℕ) (ev : EventType) (r r' : Runtime B)
      → r.state ≡ suspend
      → r.stop_reason ≡ screen_off
      → is_wake ev ≡ true
      → ingest_system_event bus chip o now ev r ≡ some r'
      → (iteration bus chip o' r').1.state ≡ suspend
  unfolding ingest_system_event wake
  wake_is_lost o o' now ev r r' s h w e = ground (arith, screen_off_suspends o' r')

  -- After the worker has taken a Shutdown and returned, starting the runtime without a stop in between
  -- ends the process, because the old thread has not been joined.
  pub restart_terminates :
      (o : Outside) (r : Runtime B)
      → r.stop_reason ≡ shutdown
      → start bus chip (iteration bus chip o r).1 ≡ none
  unfolding start
  restart_terminates o r h = ground (arith, shutdown_quits o r h)
