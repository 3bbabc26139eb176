-- ===== src/Runtime/Debounce.antt =====
-- Which system events are dropped.
use ego_touch_rev.Prelude.{ℕ, ◌+◌, ◌<◌, ◌≡◌, refl, sym, ap, ◌∙◌, arith, true, Option, some}
use ego_touch_rev.Afe.{BusPort}
use ego_touch_rev.Runtime.{Runtime, ChipPort, EventType}
use ego_touch_rev.Runtime.{WorkerState, shutdown}
use ego_touch_rev.Runtime.Worker.{
  Outside, drain, drain_commands, on_streaming, handle, on_ready, on_suspend, on_quit, on_recover,
  try_recovery, take_stop_reason, iteration,
}
use ego_touch_rev.Runtime.Control.{ingest_system_event, respond, wake, stop, start, is_fresh, noted}
use ego_touch_rev.Runtime.Invariant.{drain-SameControl, track_stylus-SameControl}

module _ {B : Type 0} (bus : BusPort B) (chip : ChipPort B) where
  on_streaming-events :
      (freq : Option (ℕ × ℕ)) (r : Runtime B)
      → (on_streaming bus chip freq r).last_event_by_type ≡ r.last_event_by_type
  unfolding on_streaming
  on_streaming-events freq r = ground (
    arith,
    track_stylus-SameControl bus chip freq
        (record r { chip = (chip.get_frame r.chip).1; consecutive_frame_errors = 0 }),
  )

  handle-events :
      (o : Outside) (s : WorkerState) (r : Runtime B)
      → (handle bus chip o s r).1.last_event_by_type ≡ r.last_event_by_type
  unfolding handle on_ready on_suspend on_quit on_recover try_recovery
  handle-events o s r = ground (arith, on_streaming-events o.bt_freq r)

  take_stop_reason-events :
      (r : Runtime B) → (take_stop_reason bus chip r).last_event_by_type ≡ r.last_event_by_type
  unfolding take_stop_reason
  take_stop_reason-events r = ground arith

  iteration-events :
      (o : Outside) (r : Runtime B)
      → (iteration bus chip o r).1.last_event_by_type ≡ r.last_event_by_type
  unfolding iteration drain_commands
  iteration-events o r =
      let r1 = take_stop_reason bus chip r in
      let r2 = drain bus chip r1.cmd_queue r1 in
      handle-events o r2.state r2
      ∙ (drain-SameControl bus chip r1.cmd_queue r1).events
      ∙ take_stop_reason-events r

  respond-events :
      (o : Outside) (ev : EventType) (r r' : Runtime B)
      → respond bus chip o ev r ≡ some r'
      → r'.last_event_by_type ≡ r.last_event_by_type
  unfolding wake stop start
  respond-events o ev r r' h =
      ground (arith, iteration-events o (record r { stop_reason = shutdown }))

  ingest-fresh :
      (o : Outside) (now : ℕ) (ev : EventType) (r : Runtime B)
      → is_fresh bus chip now (r.last_event_by_type ev) ≡ true
      → ingest_system_event bus chip o now ev r
        ≡ respond bus chip o ev
            (record r { last_event_by_type = noted bus chip ev now r.last_event_by_type })
  unfolding ingest_system_event
  ingest-fresh o now ev r f = rw f refl

  noted_self :
      (ev : EventType) (now : ℕ) (last : EventType → Option ℕ)
      → noted bus chip ev now last ev ≡ some now
  noted_self ev now last = ground arith

  ingest-notes :
      (o : Outside) (now : ℕ) (ev : EventType) (r r' : Runtime B)
      → ingest_system_event bus chip o now ev r ≡ some r'
      → is_fresh bus chip now (r.last_event_by_type ev) ≡ true
      → r'.last_event_by_type ev ≡ some now
  unfolding ingest_system_event
  ingest-notes o now ev r r' h f =
      let last = noted bus chip ev now r.last_event_by_type in
      ap (λ m. m ev)
        (respond-events o ev (record r { last_event_by_type = last }) r'
          (sym (ingest-fresh o now ev r f) ∙ h))
      ∙ noted_self ev now r.last_event_by_type

  -- An event that is taken at a time drops every event of its type in the 400 milliseconds from then
  -- on: the second one changes nothing.
  pub events_are_debounced :
      (o o' : Outside) (now now' : ℕ) (ev : EventType) (r r' : Runtime B)
      → ingest_system_event bus chip o now ev r ≡ some r'
      → is_fresh bus chip now (r.last_event_by_type ev) ≡ true
      → now' < now + 400
      → ingest_system_event bus chip o' now' ev r' ≡ some r'
  unfolding ingest_system_event
  events_are_debounced o o' now now' ev r r' h f close =
      ground (arith, ingest-notes o now ev r r' h f)
