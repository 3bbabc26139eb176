-- ===== src/Driver/Tests.antt =====
-- Requests at concrete buffers, and the theorems at them.
use ego_touch_rev.Prelude.{ℕ, ◌≡◌, refl, [], ◌∷◌, false, none, some, length, ◌||◌, replicate}
use ego_touch_rev.Driver.{
  nt_success, success, failed, EgoRegisterRw, register_rw, IoControlCode, ping, read_register,
  write_register, Request, Framework, evt_io_device_control, pattern_from,
}
use ego_touch_rev.Driver.Device.{DeviceCalls, zeroed}
use ego_touch_rev.Driver.Completion.{completion_count, failure_strands_request, bit}

-- A framework whose buffers hold 300 bytes.
abbrev roomy : Framework
roomy = record { input_buffer = λ n. (success, 300); output_buffer = λ n. (success, 300) }

-- One that refuses every output buffer.
abbrev cramped : Framework
cramped = record { input_buffer = λ n. (success, 300); output_buffer = λ n. (failed 5, 0) }

abbrev request : IoControlCode → ℕ → Request
request code size = record {
  code = code;
  afe_input = record { command = 7; param = 1; reserved = (0, 0) };
  register_input = record { address = 0xFE; size = size; bytes = [] };
}

completion_count_example :
    length (evt_io_device_control roomy (request ping 0) zeroed).1.completions
    ≡ bit (nt_success (evt_io_device_control roomy (request ping 0) zeroed).0 || false)
completion_count_example = completion_count roomy (request ping 0) zeroed

failure_strands_request_example :
    ((evt_io_device_control roomy (request write_register 257) zeroed).1.completions ≡ [])
    × ((evt_io_device_control roomy (request write_register 257) zeroed).1.written ≡ none)
failure_strands_request_example =
    failure_strands_request roomy (request write_register 257) zeroed refl
      (unfold evt_io_device_control in refl)

abbrev three_registers : EgoRegisterRw
three_registers = record { address = 0xFE; size = 3; bytes = 0xFE ∷ 0xFF ∷ 0 ∷ replicate 253 0 }

reads_three :
    (evt_io_device_control roomy (request read_register 3) zeroed).1.written
    ≡ some (register_rw three_registers)
unfolding evt_io_device_control pattern_from
reads_three = refl

abbrev broken_link : DeviceCalls
broken_link = record {
  assign_name = success;
  create = success;
  create_symbolic_link = failed 1;
  queue_create = success;
}
