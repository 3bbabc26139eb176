-- ===== src/Runtime/Control.antt =====
-- What the other threads call: Start, Stop and IngestSystemEvent.
use ego_touch_rev.Prelude.{
  ℕ, ◌-◌, Bool, true, false, not, ◌==◌, Option, none, some, if◌then◌else◌, ltb,
}
use ego_touch_rev.Afe.{BusPort}
use ego_touch_rev.Runtime.{
  WorkerState, no_reason, screen_off, shutdown, EventType, unknown, display_on, display_off, lid_on,
  lid_off, shutdown_event, resume_automatic, runtime_started, runtime_stopped, Thread, Runtime,
  ChipPort,
}
use ego_touch_rev.Runtime.WorkerState.{suspend, quit, ready}
use ego_touch_rev.Runtime.Thread.{not_joinable, live}
use ego_touch_rev.Runtime.Worker.{Outside, iteration}

abbrev pub is_suspend : WorkerState → Bool
is_suspend suspend = true
is_suspend _ = false

abbrev pub is_live : Thread → Bool
is_live live = true
is_live _ = false

abbrev pub is_not_joinable : Thread → Bool
is_not_joinable not_joinable = true
is_not_joinable _ = false

abbrev pub event_index : EventType → ℕ
event_index unknown = 0
event_index display_on = 1
event_index display_off = 2
event_index lid_on = 3
event_index lid_off = 4
event_index shutdown_event = 5
event_index resume_automatic = 6

-- kEventDebounce, in the milliseconds that the steady clock is read in.
abbrev pub event_debounce : ℕ
event_debounce = 400

module _ {B : Type 0} (bus : BusPort B) (chip : ChipPort B) where
  -- `none` is `std::terminate`, which a `std::thread` that is still joinable calls when another one is
  -- moved into it.
  unfoldable pub start : Runtime B → Option (Bool × Runtime B)
  start r =
      if r.running
      then some (false, r)
      else if is_not_joinable r.thread
      then some (
        true,
        record r {
          running = true;
          stop_reason = no_reason;
          state = ready;
          need_suspend_deinit = false;
          recover_count = 0;
          last_note = runtime_started;
          thread = live;
        },
      )
      else none

  -- The join waits for the worker, whose next iteration takes the stop reason.
  unfoldable pub stop : Outside → Runtime B → Runtime B
  stop o r =
      let r1 = record r { stop_reason = shutdown } in
      let r2 = if is_live r.thread then (iteration bus chip o r1).1 else r1 in
      record r2 {
        thread = not_joinable;
        running = false;
        state = quit;
        last_note = runtime_stopped;
      }

  -- The event is not too close to the last one of its type.
  abbrev pub is_fresh : ℕ → Option ℕ → Bool
  is_fresh now none = true
  is_fresh now (some last) = not (ltb (now - last) event_debounce)

  abbrev pub noted : EventType → ℕ → (EventType → Option ℕ) → EventType → Option ℕ
  noted ev now last ev' = if event_index ev' == event_index ev then some now else last ev'

  -- A wake event.
  unfoldable pub wake : Outside → Runtime B → Option (Runtime B)
  unfolding start stop
  wake o r =
      if is_suspend r.state
      then some (record r { state = ready })
      else elim (start (stop o r)) [ none ↦ none | some (started, r') ↦ some r' ]

  abbrev pub respond : Outside → EventType → Runtime B → Option (Runtime B)
  respond o display_off r =
      some (record r { chip = chip.cancel_pending_frame_read r.chip; stop_reason = screen_off })
  respond o lid_off r =
      some (record r { chip = chip.cancel_pending_frame_read r.chip; stop_reason = screen_off })
  respond o display_on r = wake o r
  respond o lid_on r = wake o r
  respond o resume_automatic r = wake o r
  respond o shutdown_event r = some (record r { stop_reason = shutdown })
  respond o unknown r = some r

  -- IngestSystemEvent at the clock's reading `now`.
  unfoldable pub ingest_system_event : Outside → ℕ → EventType → Runtime B → Option (Runtime B)
  ingest_system_event o now ev r =
      if is_fresh now (r.last_event_by_type ev)
      then respond o ev (record r { last_event_by_type = noted ev now r.last_event_by_type })
      else some r
