-- ===== src/Runtime/Tests.antt =====
-- A runtime around a chip that works, or fails, and the theorems at it.
use ego_touch_rev.Prelude.{ℕ, ◌≡◌, refl, arith, [], ◌∷◌, true, none, some, ◌+◌}
use ego_touch_rev.Afe.{
  ok, unexpected, communication_error, Afe, BusPort, connected, normal, new_stylus,
}
use ego_touch_rev.Runtime.{Runtime, ChipPort, screen_off, display_on, runtime_started, WorkerState}
use ego_touch_rev.Runtime.WorkerState.{suspend, ready, streaming, recover}
use ego_touch_rev.Runtime.Thread.{live}
use ego_touch_rev.Runtime.Worker.{Outside, iteration}
use ego_touch_rev.Runtime.Control.{start, ingest_system_event, wake, noted}
use ego_touch_rev.Runtime.Session.{start_call, set_auto_mode, new_runtime, step, life}
use ego_touch_rev.Runtime.Invariant.{IsValid}
use ego_touch_rev.Runtime.Life.{life-IsValid}
use ego_touch_rev.Runtime.Worker.{drain_commands}
use ego_touch_rev.Runtime.History.{keep, executed, drain_executes_queue}
use ego_touch_rev.Afe.{start_calibration}
use ego_touch_rev.Runtime.{external}
use ego_touch_rev.Runtime.Wake.{wake_makes_ready, wake_is_lost}
use ego_touch_rev.Runtime.Recovery.{spin, recovery_gives_up}

abbrev bus : BusPort ℕ
bus = record { send_command = λ op value b. (ok, b); set_frame_read_policy = λ on ms b. (ok, b) }

-- The bus counts the resets.
abbrev good_chip : ChipPort ℕ
good_chip = record {
  init = λ c. (ok, c);
  deinit = λ c. c;
  check_bus = λ c. (ok, c);
  get_frame = λ c. (ok, c);
  hold_reset = λ c. record c { bus = c.bus + 1 };
  cancel_pending_frame_read = λ c. c;
}

abbrev dead_chip : ChipPort ℕ
dead_chip = record good_chip {
  init = λ c. (unexpected communication_error, c);
  check_bus = λ c. (unexpected communication_error, c);
  get_frame = λ c. (unexpected communication_error, c);
}

abbrev afe : Afe ℕ
afe = record {
  conn_state = connected;
  afe_mode = normal;
  frame_buffer = [];
  bus = 0;
  stylus = new_stylus;
}

abbrev at_rest : Outside
at_rest = record { bt_freq = none; raised = none }

abbrev working : WorkerState → Runtime ℕ
working s = record (new_runtime afe) { state = s; running = true; thread = live; auto_mode = true }

new_runtime-IsValid : IsValid (new_runtime afe)
new_runtime-IsValid = ground arith

working-IsValid : (s : WorkerState) → IsValid (working s)
working-IsValid s = ground arith

wake_makes_ready_example :
    (r' : Runtime ℕ) × (ingest_system_event bus good_chip at_rest 1000 display_on (working suspend)
      ≡ some r')
    × (r'.state ≡ ready)
    × (r'.running ≡ true)
    × (r'.thread ≡ live)
wake_makes_ready_example =
    wake_makes_ready bus good_chip at_rest 1000 display_on (working suspend)
      (working-IsValid suspend) refl refl

-- A lid that closes on a dark screen, and opens before the worker has looked.
abbrev lid_closed : Runtime ℕ
lid_closed = record (working suspend) { stop_reason = screen_off }

abbrev lid_opened : Runtime ℕ
lid_opened = record lid_closed {
  state = ready;
  last_event_by_type = noted bus good_chip display_on 1000 (λ ev. none);
}

lid_opens : ingest_system_event bus good_chip at_rest 1000 display_on lid_closed ≡ some lid_opened
unfolding ingest_system_event wake
lid_opens = refl

wake_is_lost_example : (iteration bus good_chip at_rest lid_opened).1.state ≡ suspend
wake_is_lost_example =
    wake_is_lost bus good_chip at_rest at_rest 1000 display_on lid_closed lid_opened refl refl refl
      lid_opens

recovery_gives_up_example :
    let r = record (working recover) { recover_count = 30 } in
    ((spin bus dead_chip (at_rest ∷ []) r).state ≡ suspend)
    × ((spin bus dead_chip (at_rest ∷ []) r).recover_count ≡ 0)
recovery_gives_up_example =
    recovery_gives_up bus dead_chip (at_rest ∷ []) (record (working recover) { recover_count = 30 })
      (λ c. refl) (refl, tt) refl refl (omega arith) (omega arith)

abbrev switched_on : Runtime ℕ
switched_on = record (new_runtime afe) {
  auto_mode = true;
  state = ready;
  running = true;
  thread = live;
  last_note = runtime_started;
}

switch_on :
    life bus good_chip (set_auto_mode true ∷ start_call ∷ []) (new_runtime afe) ≡ some switched_on
unfolding life step start
switch_on = refl

life-IsValid_example : IsValid switched_on
life-IsValid_example =
    life-IsValid bus good_chip (set_auto_mode true ∷ start_call ∷ []) (new_runtime afe) switched_on
      switch_on new_runtime-IsValid

-- One calibration in the queue.
abbrev queued : Runtime ℕ
queued = record (working streaming) {
  cmd_queue =
      record { id = 1; cmd = start_calibration; param = 3; source = external; reason = [] } ∷ [];
}

drain_executes_queue_example :
    ((drain_commands bus good_chip queued).cmd_queue ≡ [])
    × ((drain_commands bus good_chip queued).history ≡ keep (executed bus queued.cmd_queue afe))
drain_executes_queue_example = drain_executes_queue bus good_chip queued (omega arith)
