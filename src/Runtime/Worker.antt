-- ===== src/Runtime/Worker.antt =====
-- WorkerMain and the handlers of its states.
use ego_touch_rev.Prelude.{
  ℕ, ◌+◌, List, [], ◌∷◌, ◌++◌, Bool, true, false, not, Option, none, some, if◌then◌else◌, length,
  ltb, leb,
}
use ego_touch_rev.Afe.{
  force_to_freq_point, ChipResult, unexpected, has_value, timeout, Afe, BusPort, afe_send_command,
}
use ego_touch_rev.Afe.Stylus.{process_stylus_status, update_bt_heartbeat}
use ego_touch_rev.Runtime.{
  WorkerState, StopReason, no_reason, screen_off, shutdown, system_policy, QueuedCommand, Output,
  stylus_process, dispatch_stylus, touch_execute, dispatch_touch, frame_push, Runtime, ChipPort,
  submit_command, record_history,
}
use ego_touch_rev.Runtime.WorkerState.{suspend, quit, ready, streaming, recover}
use ego_touch_rev.Runtime.Thread.{returned}

-- What comes from outside during one iteration: the frequencies of the pen's MCU, if a provider is
-- set, and a stop reason that another thread stores while a recovery waits.
pub record Outside : Type 0 where
  pub bt_freq : Option (ℕ × ℕ)
  pub raised : Option StopReason

abbrev pub is_timeout : ChipResult → Bool
is_timeout (unexpected timeout) = true
is_timeout _ = false

abbrev pub is_reason : StopReason → Bool
is_reason no_reason = false
is_reason _ = true

abbrev pub max_consecutive_frame_errors : ℕ
max_consecutive_frame_errors = 3

-- "Stylus Freq Sync Requested"
abbrev pub freq_sync : List ℕ
freq_sync =
    83 ∷ 116 ∷ 121 ∷ 108 ∷ 117 ∷ 115 ∷ 32 ∷ 70 ∷ 114 ∷ 101 ∷ 113 ∷ 32 ∷ 83 ∷ 121 ∷ 110 ∷ 99 ∷ 32
    ∷ 82 ∷ 101 ∷ 113 ∷ 117 ∷ 101 ∷ 115 ∷ 116 ∷ 101 ∷ 100 ∷ []

abbrev pub master_bytes : ℕ
master_bytes = 5063

abbrev pub slave_bytes : ℕ
slave_bytes = 339

module _ {B : Type 0} (bus : BusPort B) (chip : ChipPort B) where
  -- DrainCommands: the queue's front first, each command once. A failure is recorded and skipped.
  unfoldable pub drain : List QueuedCommand → Runtime B → Runtime B
  unfolding record_history
  drain [] r = record r { cmd_queue = [] }
  drain (qc ∷ queue) r =
      let (res, c) = afe_send_command bus qc.cmd qc.param r.chip in
      drain queue (record r {
        last_cmd_id = qc.id;
        chip = c;
        history = record_history qc (has_value res) r.history;
      })

  unfoldable pub drain_commands : Runtime B → Runtime B
  unfolding drain
  drain_commands r = drain r.cmd_queue r

  -- The head of an iteration: a stop reason is taken once and drops the queue.
  unfoldable pub take_stop_reason : Runtime B → Runtime B
  take_stop_reason r = elim r.stop_reason [
    | no_reason ↦ r
    | screen_off ↦ record r {
      stop_reason = no_reason;
      state = suspend;
      need_suspend_deinit = true;
      cmd_queue = [];
    }
    | shutdown ↦ record r { stop_reason = no_reason; state = quit; cmd_queue = [] }
  ]

  unfoldable pub on_ready : Runtime B → Runtime B
  on_ready r =
      if r.auto_mode
      then (let (res, c) = chip.init r.chip in
          record r { chip = c; state = if has_value res then streaming else recover })
      else r

  abbrev pub hear : Option (ℕ × ℕ) → Afe B → Afe B
  hear none a = a
  hear (some (f1, f2)) a = record a { stylus = update_bt_heartbeat f1 f2 a.stylus }

  -- The pen's part of a frame: the heartbeat, and the tracking with its command.
  unfoldable pub track_stylus : Option (ℕ × ℕ) → Runtime B → Runtime B
  unfolding submit_command
  track_stylus freq r =
      let a = hear freq r.chip in
      let (ask, s) = process_stylus_status a.frame_buffer a.stylus in
      let r1 = record r { chip = record a { stylus = s } } in
      if ask
      then (submit_command force_to_freq_point s.switch_target_idx system_policy freq_sync r1).1
      else r1

  -- What a good frame is handed to.
  unfoldable pub frame_outputs : Runtime B → List Output
  frame_outputs r =
      (if r.touch_only
        then []
        else ((if leb (master_bytes + slave_bytes) (length r.chip.frame_buffer)
              then stylus_process ∷ []
              else [])
            ++ (if r.stylus_vhf_enabled then dispatch_stylus ∷ [] else [])))
      ++ touch_execute ∷ dispatch_touch ∷ []
      ++ (if r.has_frame_push then frame_push (not r.touch_only) ∷ [] else [])

  unfoldable pub on_streaming : Option (ℕ × ℕ) → Runtime B → Runtime B
  unfolding track_stylus frame_outputs
  on_streaming freq r =
      let (res, c) = chip.get_frame r.chip in
      let r0 = record r { chip = c } in
      if is_timeout res
      then r0
      else if not (has_value res)
      then (if leb max_consecutive_frame_errors (r.consecutive_frame_errors + 1)
          then record r0 { consecutive_frame_errors = 0; state = recover }
          else record r0 { consecutive_frame_errors = r.consecutive_frame_errors + 1 })
      else (let r1 = record r0 { consecutive_frame_errors = 0 } in
          let r2 = if r.touch_only then r1 else track_stylus freq r1 in
          record r2 { outputs = r2.outputs ++ frame_outputs r2 })

  unfoldable pub on_suspend : Runtime B → Runtime B
  on_suspend r =
      if r.need_suspend_deinit
      then record r { chip = chip.hold_reset r.chip; need_suspend_deinit = false }
      else r

  -- The rest of a recovery, after its wait.
  unfoldable pub try_recovery : Runtime B → Runtime B
  try_recovery r =
      let (res, c) = chip.check_bus r.chip in
      if has_value res
      then (let (res', c') = chip.init c in
          if has_value res'
          then record r { chip = c'; state = streaming; recover_count = 0 }
          else record r { chip = c' })
      else record r { chip = c }

  -- The wait polls the stop reason, so that one that is stored before or during it ends the attempt.
  unfoldable pub on_recover : Option StopReason → Runtime B → Runtime B
  unfolding try_recovery
  on_recover raised r =
      let count = r.recover_count + 1 in
      if ltb 30 count
      then record r { recover_count = 0; need_suspend_deinit = true; state = suspend }
      else (let r1 = record r {
        recover_count = count;
        stop_reason = elim raised [ none ↦ r.stop_reason | some reason ↦ reason ];
      } in
          if is_reason r1.stop_reason then r1 else try_recovery r1)

  unfoldable pub on_quit : Runtime B → Runtime B
  on_quit r = if r.auto_mode then record r { chip = chip.deinit r.chip } else r

  -- The switch on the state; `true` when the worker returns.
  unfoldable pub handle : Outside → WorkerState → Runtime B → Bool × Runtime B
  unfolding on_ready on_streaming on_recover on_suspend on_quit
  handle o ready r = (false, on_ready r)
  handle o streaming r = (false, on_streaming o.bt_freq r)
  handle o recover r = (false, on_recover o.raised r)
  handle o suspend r = (false, on_suspend r)
  handle o quit r = (true, record (on_quit r) { running = false; thread = returned })

  -- One round of WorkerMain's loop.
  unfoldable pub iteration : Outside → Runtime B → Bool × Runtime B
  unfolding take_stop_reason drain_commands handle
  iteration o r = let r1 = drain_commands (take_stop_reason r) in handle o r1.state r1
