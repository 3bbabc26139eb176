-- ===== src/Driver/Completion.antt =====
-- When the driver completes a request, and what a request leaves in the device context.
use ego_touch_rev.Prelude.{
  ℕ, ◌≤◌, ◌≡◌, arith, List, [], ◌∷◌, Bool, true, false, ◌&&◌, ◌||◌, none, some, if◌then◌else◌,
  length,
}
use ego_touch_rev.Driver.{
  nt_success, success, DeviceContext, Reply, reply_size, IoControlCode, send_afe_command, other,
  Request, Framework, evt_io_device_control,
}

abbrev pub is_other : IoControlCode → Bool
is_other (other n) = true
is_other _ = false

abbrev pub is_send_afe : IoControlCode → Bool
is_send_afe send_afe_command = true
is_send_afe _ = false

abbrev pub bit : Bool → ℕ
bit true = 1
bit false = 0

module _ (wdf : Framework) where
  -- A request is completed once if its handler succeeds or the control code is unknown, and never
  -- otherwise: no request is completed twice.
  pub completion_count :
      (req : Request) (context : DeviceContext)
      → let (status, o) = evt_io_device_control wdf req context in
        length o.completions ≡ bit (nt_success status || is_other req.code)
  unfolding evt_io_device_control
  completion_count req context = ground arith

  -- Where a known control code fails (a buffer too small, a register length above 256), the routine
  -- returns without completing the request and writes no output: the caller's request stays pending.
  pub failure_strands_request :
      (req : Request) (context : DeviceContext)
      → is_other req.code ≡ false
      → nt_success (evt_io_device_control wdf req context).0 ≡ false
      → ((evt_io_device_control wdf req context).1.completions ≡ [])
        × ((evt_io_device_control wdf req context).1.written ≡ none)
  unfolding evt_io_device_control
  failure_strands_request req context known fails = ground arith

  -- The device context changes only by a successful SEND_AFE_COMMAND, which stores the caller's
  -- command and the status success.
  pub context_changes :
      (req : Request) (context : DeviceContext)
      → let (status, o) = evt_io_device_control wdf req context in
        o.context ≡ (
          if is_send_afe req.code && nt_success status
          then record { last_status = success; last_afe_command = req.afe_input }
          else context)
  unfolding evt_io_device_control
  context_changes req context = ground arith

  -- A reply is written only where the framework gave an output buffer that holds all of it, and the
  -- request is then completed with success and the reply's size.
  pub reply_fits :
      (req : Request) (context : DeviceContext) (reply : Reply)
      → (evt_io_device_control wdf req context).1.written ≡ some reply
      → (reply_size reply ≤ (wdf.output_buffer (reply_size reply)).1)
        × ((evt_io_device_control wdf req context).1.completions ≡ (success, reply_size reply) ∷ [])
  unfolding evt_io_device_control
  reply_fits req context reply h = ground arith

  -- The driver over a sequence of requests: the context that they leave.
  unfoldable pub serve : List Request → DeviceContext → DeviceContext
  serve [] context = context
  serve (req ∷ reqs) context = serve reqs (evt_io_device_control wdf req context).1.context

  -- From the zeroed context on, whatever is asked and whatever fails, the stored status is success:
  -- GET_LAST_STATUS never reports a failure.
  pub last_status_always_success :
      (reqs : List Request) (context : DeviceContext)
      → context.last_status ≡ success
      → (serve reqs context).last_status ≡ success
  unfolding serve
  last_status_always_success [] context h = h
  last_status_always_success (req ∷ reqs) context h =
      last_status_always_success reqs (evt_io_device_control wdf req context).1.context
        (ground (arith, context_changes req context))
