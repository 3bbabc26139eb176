-- ===== src/Runtime/Invariant.antt =====
-- What holds of a runtime between two steps.
use ego_touch_rev.Prelude.{
  ℕ, zero, suc, ◌-◌, ◌≤◌, ◌≡◌, refl, arith, List, [], ◌∷◌, ◌++◌, Bool, true, false, Option,
  if◌then◌else◌, length, ltb,
}
use ego_touch_rev.Afe.{BusPort, afe_send_command, has_value}
use ego_touch_rev.Runtime.{
  WorkerState, StopReason, shutdown, QueuedCommand, HistoryEntry, Runtime, ChipPort, drop_first,
  record_history, submit_command,
}
use ego_touch_rev.Runtime.WorkerState.{quit}
use ego_touch_rev.Runtime.Worker.{
  Outside, drain, drain_commands, take_stop_reason, on_ready, on_streaming, track_stylus,
  on_suspend, try_recovery, on_recover, on_quit, handle, iteration,
}
use ego_touch_rev.Runtime.Control.{stop, is_live}

pub record IsValid {B : Type 0} (r : Runtime B) : Type 0 where
  pub recoveries : r.recover_count ≤ 30
  pub errors : r.consecutive_frame_errors ≤ 2
  pub recorded : length r.history ≤ 512
  pub running_live : r.running ≡ is_live r.thread
  pub stopped_quit : is_live r.thread ≡ false → r.state ≡ quit

pub length-drop_first {ℓ} :
    {A : Type ℓ} → (n : ℕ) (xs : List A) → length (drop_first n xs) ≡ length xs - n
unfolding drop_first
length-drop_first zero xs = omega arith
length-drop_first (suc n) [] = omega arith
length-drop_first (suc n) (x ∷ xs) = omega (length-drop_first n xs, arith)

trim-bound :
    (xs : List HistoryEntry)
    → length (if ltb 512 (length xs) then drop_first (length xs - 512) xs else xs) ≤ 512
trim-bound xs = ground (arith, length-drop_first (length xs - 512) xs)

pub record_history-bound :
    (qc : QueuedCommand) (ok : Bool) (history : List HistoryEntry)
    → length (record_history qc ok history) ≤ 512
unfolding record_history
record_history-bound qc ok history = trim-bound (
    history
    ++ record { command_id = qc.id; command_name = qc.reason; source = qc.source; success = ok }
      ∷ [])

-- The parts of a runtime that draining the commands leaves alone.
pub record SameControl {B : Type 0} (r r' : Runtime B) : Type 0 where
  pub state : r'.state ≡ r.state
  pub stop_reason : r'.stop_reason ≡ r.stop_reason
  pub recover_count : r'.recover_count ≡ r.recover_count
  pub errors : r'.consecutive_frame_errors ≡ r.consecutive_frame_errors
  pub suspend_deinit : r'.need_suspend_deinit ≡ r.need_suspend_deinit
  pub running : r'.running ≡ r.running
  pub thread : r'.thread ≡ r.thread
  pub auto : r'.auto_mode ≡ r.auto_mode
  pub events : r'.last_event_by_type ≡ r.last_event_by_type

module _ {B : Type 0} (bus : BusPort B) (chip : ChipPort B) where
  pub drain-SameControl :
      (queue : List QueuedCommand) (r : Runtime B) → SameControl r (drain bus chip queue r)
  unfolding drain
  drain-SameControl [] r = ground arith
  drain-SameControl (qc ∷ queue) r = ground (
    arith,
    drain-SameControl queue (record r {
      last_cmd_id = qc.id;
      chip = (afe_send_command bus qc.cmd qc.param r.chip).1;
      history =
          record_history qc (has_value (afe_send_command bus qc.cmd qc.param r.chip).0) r.history;
    }),
  )

  drain-recorded :
      (queue : List QueuedCommand) (r : Runtime B)
      → length r.history ≤ 512
      → length (drain bus chip queue r).history ≤ 512
  unfolding drain
  drain-recorded [] r h = h
  drain-recorded (qc ∷ queue) r h =
      drain-recorded queue
        (record r {
          last_cmd_id = qc.id;
          chip = (afe_send_command bus qc.cmd qc.param r.chip).1;
          history =
              record_history qc (has_value (afe_send_command bus qc.cmd qc.param r.chip).0)
                r.history;
        })
        (record_history-bound qc (has_value (afe_send_command bus qc.cmd qc.param r.chip).0)
          r.history)

  drain-IsValid : (r : Runtime B) → IsValid r → IsValid (drain_commands bus chip r)
  unfolding drain_commands
  drain-IsValid r v =
      ground (arith, drain-SameControl r.cmd_queue r, drain-recorded r.cmd_queue r v.recorded)

  take_stop_reason-IsValid :
      (r : Runtime B) → is_live r.thread ≡ true → IsValid r → IsValid (take_stop_reason bus chip r)
  unfolding take_stop_reason
  take_stop_reason-IsValid r l v = ground arith

  pub track_stylus-SameControl :
      (freq : Option (ℕ × ℕ)) (r : Runtime B) → SameControl r (track_stylus bus chip freq r)
  unfolding track_stylus submit_command
  track_stylus-SameControl freq r = ground arith

  track_stylus-recorded :
      (freq : Option (ℕ × ℕ)) (r : Runtime B) → (track_stylus bus chip freq r).history ≡ r.history
  unfolding track_stylus submit_command
  track_stylus-recorded freq r = ground arith

  on_streaming-IsValid :
      (freq : Option (ℕ × ℕ)) (r : Runtime B)
      → is_live r.thread ≡ true
      → IsValid r
      → IsValid (on_streaming bus chip freq r)
  unfolding on_streaming
  on_streaming-IsValid freq r l v =
      let r1 = record r { chip = (chip.get_frame r.chip).1; consecutive_frame_errors = 0 } in
      ground (arith, track_stylus-SameControl freq r1, track_stylus-recorded freq r1)

  on_recover-IsValid :
      (raised : Option StopReason) (r : Runtime B)
      → is_live r.thread ≡ true
      → IsValid r
      → IsValid (on_recover bus chip raised r)
  unfolding on_recover try_recovery
  on_recover-IsValid raised r l v = ground arith

  handle-IsValid :
      (o : Outside) (s : WorkerState) (r : Runtime B)
      → s ≡ r.state
      → is_live r.thread ≡ true
      → IsValid r
      → IsValid (handle bus chip o s r).1
  unfolding handle on_ready on_suspend on_quit
  handle-IsValid o s r e l v =
      ground (arith, on_streaming-IsValid o.bt_freq r l v, on_recover-IsValid o.raised r l v)

  take_stop_reason-live : (r : Runtime B) → (take_stop_reason bus chip r).thread ≡ r.thread
  unfolding take_stop_reason
  take_stop_reason-live r = ground arith

  pub iteration-IsValid :
      (o : Outside) (r : Runtime B)
      → is_live r.thread ≡ true
      → IsValid r
      → IsValid (iteration bus chip o r).1
  unfolding iteration drain_commands
  iteration-IsValid o r l v =
      let r1 = take_stop_reason bus chip r in
      let r2 = drain_commands bus chip r1 in
      handle-IsValid o r2.state r2 refl
        (ground (arith, take_stop_reason-live r, drain-SameControl r1.cmd_queue r1))
        (drain-IsValid r1 (take_stop_reason-IsValid r l v))

  -- A stop leaves no thread, whatever the worker was doing.
  pub stop-IsValid : (o : Outside) (r : Runtime B) → IsValid r → IsValid (stop bus chip o r)
  unfolding stop
  stop-IsValid o r v = ground (arith, iteration-IsValid o (record r { stop_reason = shutdown }))
