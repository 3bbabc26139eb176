-- ===== src/Runtime.antt =====
-- DeviceRuntime: EGoTouchService/Device/runtime/DeviceRuntime.h and .cpp, with
-- Host/SystemStateEvent.h. `Worker` has the worker thread's iteration and `Control` what the other
-- threads call. A call under the mutex, and a state handler, is one step.
pub mod Worker
pub mod Control
pub mod Session
pub mod Invariant
pub mod Life
pub mod Wake
pub mod Recovery
pub mod History
pub mod Debounce
pub mod Ports
mod Tests
use ego_touch_rev.Prelude.{
  ℕ, zero, suc, ◌+◌, ◌-◌, ◌%◌, ◌^◌, List, [], ◌∷◌, ◌++◌, Bool, true, false, Option, none, some,
  if◌then◌else◌, length, ltb,
}
use ego_touch_rev.Afe.{AfeCommand, ChipResult, Afe}

pub data WorkerState : Type 0 where
  suspend quit ready streaming recover : WorkerState

pub data StopReason : Type 0 where
  no_reason screen_off shutdown : StopReason

pub data CommandSource : Type 0 where
  external system_policy : CommandSource

-- SystemStateEventType
pub data EventType : Type 0 where
  unknown display_on display_off lid_on lid_off shutdown_event resume_automatic : EventType

pub data Note : Type 0 where
  no_note runtime_started runtime_stopped : Note

-- `m_thread`: none to join, one that runs, or one that has returned and waits to be joined.
pub data Thread : Type 0 where
  not_joinable live returned : Thread

-- Texts are lists of characters. The time of queueing is not read by any code.
pub record QueuedCommand : Type 0 where
  pub id : ℕ
  pub cmd : AfeCommand
  pub param : ℕ
  pub source : CommandSource
  pub reason : List ℕ

-- The detail is "OK" on success and one fixed text on failure, so `success` stands for it.
pub record HistoryEntry : Type 0 where
  pub command_id : ℕ
  pub command_name : List ℕ
  pub source : CommandSource
  pub success : Bool

-- What a frame's handling does outside the runtime, in order.
pub data Output : Type 0 where
  stylus_process dispatch_stylus touch_execute dispatch_touch : Output
  frame_push : Bool → Output  -- whether it carries the stylus result

pub record Runtime (B : Type 0) : Type 0 where
  pub state : WorkerState
  pub stop_reason : StopReason
  pub auto_mode : Bool
  pub touch_only : Bool
  pub stylus_vhf_enabled : Bool
  pub has_frame_push : Bool
  pub recover_count : ℕ
  pub need_suspend_deinit : Bool
  pub consecutive_frame_errors : ℕ
  pub cmd_queue : List QueuedCommand
  pub history : List HistoryEntry
  pub last_event_by_type : EventType → Option ℕ
  pub last_cmd_id : ℕ
  pub last_note : Note
  pub next_cmd_id : ℕ  -- uint64
  pub running : Bool
  pub thread : Thread
  pub chip : Afe B
  pub outputs : List Output

-- What the runtime calls of Himax::Chip.
pub record ChipPort (B : Type 0) : Type 0 where
  pub init : Afe B → ChipResult × Afe B
  pub deinit : Afe B → Afe B
  pub check_bus : Afe B → ChipResult × Afe B
  pub get_frame : Afe B → ChipResult × Afe B
  pub hold_reset : Afe B → Afe B
  pub cancel_pending_frame_read : Afe B → Afe B

abbrev pub max_history_items : ℕ
max_history_items = 512

-- The items from position `n` on.
pub drop_first {ℓ} : {A : Type ℓ} → ℕ → List A → List A
drop_first zero xs = xs
drop_first (suc n) [] = []
drop_first (suc n) (x ∷ xs) = drop_first n xs

-- RecordHistory
unfoldable pub record_history : QueuedCommand → Bool → List HistoryEntry → List HistoryEntry
unfolding drop_first
record_history qc ok history =
    let grown =
      history
      ++ record { command_id = qc.id; command_name = qc.reason; source = qc.source; success = ok }
        ∷ [] in
    if ltb max_history_items (length grown)
    then drop_first (length grown - max_history_items) grown
    else grown

module _ {B : Type 0} where
  -- SubmitCommand
  unfoldable pub submit_command :
      AfeCommand → ℕ → CommandSource → List ℕ → Runtime B → ℕ × Runtime B
  submit_command cmd param source reason r = (
    r.next_cmd_id,
    record r {
      next_cmd_id = (r.next_cmd_id + 1) % 2 ^ 64;
      cmd_queue =
          r.cmd_queue
          ++ record {
            id = r.next_cmd_id;
            cmd = cmd;
            param = param;
            source = source;
            reason = reason;
          }
            ∷ [];
    },
  )

  -- GetHistory
  unfoldable pub get_history : ℕ → Runtime B → List HistoryEntry
  unfolding drop_first
  get_history n r =
      if ltb n (length r.history) then drop_first (length r.history - n) r.history else r.history

  unfoldable pub clear_history : Runtime B → Runtime B
  clear_history r = record r { history = [] }
