-- ===== src/Himax/Tests.antt =====
-- A system whose registers remember the last write, a chip on it, and the theorems at them.
use ego_touch_rev.Prelude.{
  ℕ, ◌+◌, ◌%◌, ◌≡◌, ◌⊎◌, refl, arith, List, [], ◌∷◌, true, false, ◌&&◌, ◌==◌, none, some,
  if◌then◌else◌, length, get_or, take, drop, replicate, length-replicate,
}
use ego_touch_rev.Afe.{
  ok, unexpected, invalid_operation, Afe, unconnected, normal, new_stylus, start_calibration,
  afe_send_command,
}
use ego_touch_rev.Runtime.{Runtime, display_off}
use ego_touch_rev.Runtime.Worker.{Outside, iteration}
use ego_touch_rev.Runtime.Control.{start, ingest_system_event}
use ego_touch_rev.Runtime.Session.{
  Call, start_call, ingest, iterate, set_auto_mode, life, step, new_runtime,
}
use ego_touch_rev.Himax.{master, slave, interrupt, Board}
use ego_touch_rev.Himax.Hal.{
  Io, io_control, write_file, read_file, Completion, completed, refused, finished, Os,
}
use ego_touch_rev.Himax.Hal.{
  write_bus, perform_sync_io, with_event, await, control, read_bus, get_frame_bytes,
}
use ego_touch_rev.Himax.Protocol.{register_write, register_read, write_and_verify}
use ego_touch_rev.Himax.Sense.{hx_hw_reset_ahb_intf, retry, himax_mcu_power_on_init}
use ego_touch_rev.Himax.Init.{init_board, new_hal_device, bus_port, init}
use ego_touch_rev.Himax.Frame.{
  is_finger_detected, is_stylus_detected, get_normal_frame, read_frame, count_frame, chip_port,
}
use ego_touch_rev.Himax.Interleave.{Reads, master_is_read}
use ego_touch_rev.Himax.Counters.{IsSound}
use ego_touch_rev.Himax.Slots.{send_all, slot_counts_answers}
use ego_touch_rev.Himax.Service.{chip_stays-IsSound, suspended_chip_is_silent}

-- The address and the bytes that were written last.
abbrev Registers : Type 0
Registers = List ℕ × List ℕ

abbrev reply : ℕ → List ℕ → Completion
reply n bytes = completed (0 ∷ 0 ∷ 0 ∷ bytes) n

-- The reload register reads as done.
abbrev read_back : ℕ → ℕ → Registers → Completion × Registers
read_back code n (addr, bytes) = (
  (if code == 0x4001c24
      then reply n (
          if (get_or addr 0 0 == 0xC0) && (get_or addr 1 0 == 0x72)
          then 0xC0 ∷ 0x72 ∷ 0 ∷ 0 ∷ []
          else bytes)
      else completed [] n),
  (addr, bytes),
)

-- Command 0 sets the address, and the bytes behind it are data.
abbrev store : List ℕ → Registers → Completion × Registers
store file (addr, bytes) = (
  completed [] (length file),
  (if get_or file 1 1 == 0
      then (take 4 (drop 2 file), (if length file == 6 then bytes else drop 6 file))
      else (addr, bytes)),
)

abbrev answer : Io → Registers → Completion × Registers
answer (io_control code input n) w = read_back code n w
answer (write_file file) w = store file w
answer (read_file n) w = (completed [] n, w)

abbrev system : Os Registers
system = record {
  create_event = λ w. (none, w);
  submit = λ d io w. let (c, w') = answer io w in (finished c, w');
  wait = λ w. (none, w);
  overlapped_result = λ w. (completed [] 0, w);
  cancel_io = λ d w. w;
}

-- A system that refuses every request.
abbrev dead_system : Os Registers
dead_system = record system { submit = λ d io w. (finished (refused 31), w) }

abbrev board : Board Registers
board = record {
  master_device = new_hal_device master none none;
  slave_device = new_hal_device slave none none;
  interrupt_device = new_hal_device interrupt none none;
  current_slot = 3;
  frame_count = 0;
  zero_frame_count = 0;
  stylus_active = false;
  last_master_was_read = true;
  world = ([], []);
}

abbrev chip : Afe (Board Registers)
chip = record {
  conn_state = unconnected;
  afe_mode = normal;
  frame_buffer = [];
  bus = board;
  stylus = new_stylus;
}

-- Init runs through, with its registers written and read back.
init_works : (init system chip).0 ≡ ok
unfolding init init_board hx_hw_reset_ahb_intf new_hal_device register_write write_bus
    perform_sync_io with_event await control retry write_and_verify register_read read_bus
    himax_mcu_power_on_init
init_works = refl

abbrev three : List (ℕ × ℕ)
three = (0x01, 0) ∷ (0x0E, 0) ∷ (0x0A, 0) ∷ []

slot_counts_answers_example :
    (send_all system three board).1.current_slot ≡ (3 + (send_all system three board).0) % 5
slot_counts_answers_example = slot_counts_answers system three board (omega arith)

frame_reads : (get_normal_frame system chip).0 ≡ ok
unfolding get_normal_frame read_frame get_frame_bytes perform_sync_io new_hal_device
frame_reads = refl

frame_reads_again : (get_normal_frame system (get_normal_frame system chip).1).0 ≡ ok
unfolding get_normal_frame read_frame get_frame_bytes count_frame perform_sync_io new_hal_device
    is_finger_detected is_stylus_detected
frame_reads_again = refl

master_is_read_example :
    let a1 = (get_normal_frame system chip).1 in
    let a2 = (get_normal_frame system a1).1 in
    (Reads system chip a1 ⊎ Reads system a1 a2)
    × ((chip.bus.stylus_active ≡ true) ⊎ Reads system chip a1)
master_is_read_example = master_is_read system chip frame_reads frame_reads_again

abbrev outside : Outside
outside = record { bt_freq = none; raised = none }

-- The screen goes dark while the worker is ready.
abbrev night : List Call
night = start_call ∷ ingest outside 1000 display_off ∷ iterate outside ∷ []

abbrev dark : Runtime (Board Registers)
dark = elim (life (bus_port system) (chip_port system) night (new_runtime chip)) [
  | none ↦ new_runtime chip
  | some r ↦ r
]

falls_asleep : life (bus_port system) (chip_port system) night (new_runtime chip) ≡ some dark
unfolding life step start ingest_system_event
falls_asleep = refl

suspended_chip_is_silent_example :
    (dark.chip.conn_state ≡ unconnected)
    × (afe_send_command (bus_port system) start_calibration 0 dark.chip
        ≡ (unexpected invalid_operation, dark.chip))
unfolding life step start ingest_system_event iteration
suspended_chip_is_silent_example =
    suspended_chip_is_silent system night chip dark start_calibration 0 falls_asleep refl refl

abbrev wide : Afe (Board Registers)
wide = record chip { frame_buffer = replicate 6000 0 }

-- The worker starts, and initialises the chip.
abbrev morning : List Call
morning = set_auto_mode true ∷ start_call ∷ iterate outside ∷ []

abbrev awake : Runtime (Board Registers)
awake = elim (life (bus_port system) (chip_port system) morning (new_runtime wide)) [
  | none ↦ new_runtime wide
  | some r ↦ r
]

wakes_up : life (bus_port system) (chip_port system) morning (new_runtime wide) ≡ some awake
unfolding life step start
wakes_up = refl

chip_stays-IsSound_example : IsSound awake.chip
chip_stays-IsSound_example =
    chip_stays-IsSound system morning (new_runtime wide) awake wakes_up (record {
      buffer = length-replicate {A = ℕ} 6000 0;
      range = record { slot = omega arith; zeros = omega arith };
    })
