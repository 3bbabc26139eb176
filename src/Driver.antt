-- ===== src/Driver.antt =====
-- The request handlers of KernelDriver/EGoTouchKm/Driver.cpp, with Driver.h and Ioctl.h. A request is
-- what the framework hands over; a handler returns its NTSTATUS and what it did: the completions of
-- the request, what it wrote to the output buffer, and the device context. Retrieving a buffer is
-- the framework's (WdfRequestRetrieve…Buffer), and is a parameter.
pub mod Device
pub mod Completion
pub mod Replies
mod Tests
use ego_touch_rev.Prelude.{
  ℕ, zero, suc, ◌+◌, ◌-◌, ◌%◌, ◌^◌, List, [], ◌∷◌, ◌++◌, Bool, true, false, Option, none, some, ltb,
  leb, if◌then◌else◌, length, replicate, take,
}

-- The NTSTATUS values that the driver names; `failed` is any other that the framework returns.
pub data NtStatus : Type 0 where
  success buffer_too_small invalid_parameter invalid_device_request : NtStatus
  failed : ℕ → NtStatus

-- NT_SUCCESS
abbrev pub nt_success : NtStatus → Bool
nt_success success = true
nt_success _ = false

-- EGO_AFE_COMMAND: 4 bytes.
pub record EgoAfeCommand : Type 0 where
  pub command : ℕ
  pub param : ℕ
  pub reserved : ℕ × ℕ

-- EGO_REGISTER_RW: two ULONG and 256 bytes.
pub record EgoRegisterRw : Type 0 where
  pub address : ℕ
  pub size : ℕ
  pub bytes : List ℕ

-- EGO_DEVICE_CONTEXT
pub record DeviceContext : Type 0 where
  pub last_status : NtStatus
  pub last_afe_command : EgoAfeCommand

-- What a handler copies out: the structs of Ioctl.h.
pub data Reply : Type 0 where
  ping_reply : (version capability_flags reserved : ℕ) → Reply
  protocol_info : List ℕ → Reply
  status_reply : NtStatus → Reply
  register_rw : EgoRegisterRw → Reply
  frame_response : (data_length : ℕ) → List ℕ → Reply

-- sizeof
abbrev pub reply_size : Reply → ℕ
reply_size (ping_reply _ _ _) = 12
reply_size (protocol_info _) = 40
reply_size (status_reply _) = 4
reply_size (register_rw _) = 264
reply_size (frame_response _ _) = 6004

-- The I/O control codes of Ioctl.h; `other` is any code that it does not define.
pub data IoControlCode : Type 0 where
  ping get_protocol_info send_afe_command get_last_status : IoControlCode
  read_register write_register get_frame : IoControlCode
  other : ℕ → IoControlCode

-- A request as a handler finds it: its code, and its input buffer read as the struct that the
-- handler casts it to.
pub record Request : Type 0 where
  pub code : IoControlCode
  pub afe_input : EgoAfeCommand
  pub register_input : EgoRegisterRw

-- The framework's answer to a buffer of a minimum size: its length, or a failure.
pub record Framework : Type 0 where
  pub input_buffer : ℕ → NtStatus × ℕ
  pub output_buffer : ℕ → NtStatus × ℕ

-- What has happened to the request, and the device context.
pub record Outcome : Type 0 where
  pub completions : List (NtStatus × ℕ)
  pub written : Option Reply
  pub context : DeviceContext

abbrev pub untouched : DeviceContext → Outcome
untouched context = record { completions = []; written = none; context = context }

-- CompleteRequestWithStatus
abbrev pub complete : NtStatus → ℕ → Outcome → Outcome
complete status information o = record o {
  completions = o.completions ++ ((status, information) ∷ []);
}

-- kVersion and the kCapability flags
abbrev pub version : ℕ
version = 0x00010000

-- kCapabilityAfeControl | kCapabilityRegisterRw | kCapabilityFrameRead
abbrev pub capability_flags : ℕ
capability_flags = 0x1 + 0x2 + 0x4

-- The kSpiIoctl codes, in the order of EGO_PROTOCOL_INFO.
abbrev pub spi_codes : List ℕ
spi_codes =
    0x04001C00 ∷ 0x04001C04 ∷ 0x04001C10 ∷ 0x04001C20 ∷ 0x04001C24 ∷ 0x04001C28 ∷ 0x04001C2C
    ∷ 0x04001C30 ∷ 0x04001C34 ∷ 0x04001C38 ∷ []

abbrev pub frame_buffer_size : ℕ
frame_buffer_size = 6000

-- `Data[i] = (Address + i) & 0xFF` for the `n` bytes from `i` on; the ULONG sum wraps.
unfoldable pub pattern_from : ℕ → ℕ → ℕ → List ℕ
pattern_from address i zero = []
pattern_from address i (suc n) = ((address + i) % 2 ^ 32) % 256 ∷ pattern_from address (i + 1) n

module _ (wdf : Framework) where
  -- CopyToOutputBuffer, at the default minimum.
  unfoldable pub copy_to_output_buffer : Reply → Outcome → NtStatus × Outcome
  copy_to_output_buffer reply o =
      let (status, out_len) = wdf.output_buffer (reply_size reply) in
      if nt_success status
      then (if ltb out_len (reply_size reply)
          then (buffer_too_small, o)
          else (success, record o { written = some reply }))
      else (status, o)

  -- A handler that copies a reply out and completes the request with its size.
  abbrev pub reply_with : Reply → Outcome → NtStatus × Outcome
  reply_with reply o =
      let (status, o') = copy_to_output_buffer reply o in
      if nt_success status then (success, complete success (reply_size reply) o') else (status, o')

  unfoldable pub handle_ping : Outcome → NtStatus × Outcome
  unfolding copy_to_output_buffer
  handle_ping o = reply_with (ping_reply version capability_flags 0) o

  unfoldable pub handle_get_protocol_info : Outcome → NtStatus × Outcome
  unfolding copy_to_output_buffer
  handle_get_protocol_info o = reply_with (protocol_info spi_codes) o

  unfoldable pub handle_set_afe_command : Request → Outcome → NtStatus × Outcome
  handle_set_afe_command req o =
      let (status, in_len) = wdf.input_buffer 4 in
      if nt_success status
      then (if ltb in_len 4 then (buffer_too_small, o) else (
        success,
        complete success 0 (record o {
          context = record { last_status = success; last_afe_command = req.afe_input };
        }),
      ))
      else (status, o)

  unfoldable pub handle_get_last_status : Outcome → NtStatus × Outcome
  unfolding copy_to_output_buffer
  handle_get_last_status o = reply_with (status_reply o.context.last_status) o

  -- The bytes behind the pattern are those of a zeroed struct.
  abbrev pub register_reply : EgoRegisterRw → Reply
  register_reply r = register_rw (record {
    address = r.address;
    size = r.size;
    bytes = pattern_from r.address 0 r.size ++ replicate (256 - r.size) 0;
  })

  unfoldable pub handle_register_read : Request → Outcome → NtStatus × Outcome
  unfolding copy_to_output_buffer
  handle_register_read req o =
      let (status, in_len) = wdf.input_buffer 264 in
      if nt_success status
      then (if ltb 256 req.register_input.size
          then (invalid_parameter, o)
          else reply_with (register_reply req.register_input) o)
      else (status, o)

  unfoldable pub handle_register_write : Request → Outcome → NtStatus × Outcome
  handle_register_write req o =
      let (status, in_len) = wdf.input_buffer 264 in
      if nt_success status
      then (if ltb 256 req.register_input.size
          then (invalid_parameter, o)
          else (success, complete success 0 o))
      else (status, o)

  unfoldable pub handle_get_frame : Outcome → NtStatus × Outcome
  handle_get_frame o =
      let reply = frame_response frame_buffer_size (pattern_from 0 0 frame_buffer_size) in
      let (status, out_len) = wdf.output_buffer (reply_size reply) in
      if nt_success status
      then (if ltb out_len (reply_size reply)
          then (buffer_too_small, o)
          else (success, complete success (reply_size reply) (record o { written = some reply })))
      else (status, o)

  -- The switch of EGoEvtIoDeviceControl: a handled code returns, and only the default falls through
  -- to the completion under the switch.
  control : IoControlCode → Request → Outcome → NtStatus × Outcome
  unfolding handle_ping handle_get_protocol_info handle_set_afe_command handle_get_last_status
      handle_register_read handle_register_write handle_get_frame
  control ping req o = handle_ping o
  control get_protocol_info req o = handle_get_protocol_info o
  control send_afe_command req o = handle_set_afe_command req o
  control get_last_status req o = handle_get_last_status o
  control read_register req o = handle_register_read req o
  control write_register req o = handle_register_write req o
  control get_frame req o = handle_get_frame o
  control (other n) req o = (invalid_device_request, complete invalid_device_request 0 o)

  -- EGoEvtIoDeviceControl on a request that nobody has touched. The status is that of the handler,
  -- which the routine itself drops.
  unfoldable pub evt_io_device_control : Request → DeviceContext → NtStatus × Outcome
  unfolding control
  evt_io_device_control req context = control req.code req (untouched context)
