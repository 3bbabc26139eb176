-- ===== src/Runtime/Session.antt =====
-- A runtime's life: the worker's iterations and the other threads' calls, in the order in which they
-- happen.
use ego_touch_rev.Prelude.{ℕ, List, [], ◌∷◌, Bool, true, false, Option, none, some, if◌then◌else◌}
use ego_touch_rev.Afe.{AfeCommand, Afe, BusPort}
use ego_touch_rev.Runtime.{
  CommandSource, EventType, no_reason, no_note, Runtime, ChipPort, submit_command, clear_history,
}
use ego_touch_rev.Runtime.WorkerState.{quit}
use ego_touch_rev.Runtime.Thread.{not_joinable}
use ego_touch_rev.Runtime.Worker.{Outside, iteration}
use ego_touch_rev.Runtime.Control.{start, stop, ingest_system_event, is_live}

pub data Call : Type 0 where
  iterate : Outside → Call
  ingest : Outside → ℕ → EventType → Call
  submit : AfeCommand → ℕ → CommandSource → List ℕ → Call
  start_call clear_call : Call
  stop_call : Outside → Call
  set_auto_mode set_touch_only set_stylus_vhf : Bool → Call

-- A new runtime around a chip.
abbrev pub new_runtime : {B : Type 0} → Afe B → Runtime B
new_runtime c = record {
  state = quit;
  stop_reason = no_reason;
  auto_mode = false;
  touch_only = false;
  stylus_vhf_enabled = true;
  has_frame_push = false;
  recover_count = 0;
  need_suspend_deinit = false;
  consecutive_frame_errors = 0;
  cmd_queue = [];
  history = [];
  last_event_by_type = λ ev. none;
  last_cmd_id = 0;
  last_note = no_note;
  next_cmd_id = 1;
  running = false;
  thread = not_joinable;
  chip = c;
  outputs = [];
}

module _ {B : Type 0} (bus : BusPort B) (chip : ChipPort B) where
  -- `none` is a call that ends the process. Only a live worker iterates.
  unfoldable pub step : Call → Runtime B → Option (Runtime B)
  step (iterate o) r = some (if is_live r.thread then (iteration bus chip o r).1 else r)
  step (ingest o now ev) r = ingest_system_event bus chip o now ev r
  step (submit cmd param source reason) r = some (submit_command cmd param source reason r).1
  step start_call r = elim (start bus chip r) [ none ↦ none | some (started, r') ↦ some r' ]
  step clear_call r = some (clear_history r)
  step (stop_call o) r = some (stop bus chip o r)
  step (set_auto_mode enabled) r = some (record r { auto_mode = enabled })
  step (set_touch_only v) r = some (record r { touch_only = v })
  step (set_stylus_vhf v) r = some (record r { stylus_vhf_enabled = v })

  unfoldable pub life : List Call → Runtime B → Option (Runtime B)
  life [] r = some r
  life (c ∷ cs) r = elim (step c r) [ none ↦ none | some r' ↦ life cs r' ]
