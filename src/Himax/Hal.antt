-- ===== src/Himax/Hal.antt =====
-- HalDevice (HimaxProtocol.cpp): each call of the operating system on a device, and its retries.
use ego_touch_rev.Prelude.{
  ℕ, zero, suc, ◌+◌, List, [], ◌∷◌, ◌++◌, Bool, true, false, ◌||◌, ltb, ◌==◌, Option, none, some,
  if◌then◌else◌, replicate, take, drop,
}
use ego_touch_rev.Afe.{ChipError, communication_error, internal_error}
use ego_touch_rev.Himax.{
  DeviceType, HalDevice, Board, Result, done, failed, is_done, Act, pure, ◌>>=◌, device, set_error,
}
use ego_touch_rev.Himax.Registers.{le32}

-- A request to the system: DeviceIoControl with its code, input and output length; WriteFile; ReadFile.
pub data Io : Type 0 where
  io_control : ℕ → List ℕ → ℕ → Io
  write_file : List ℕ → Io
  read_file : ℕ → Io

-- How a request ends: with the bytes it read and how many it moved, or with an error code.
pub data Completion : Type 0 where
  completed : List ℕ → ℕ → Completion
  refused : ℕ → Completion

-- ERROR_IO_PENDING, or the end at once.
pub data Submitted : Type 0 where
  finished : Completion → Submitted
  pending : Submitted

-- The operating system: an option is an error code.
pub record Os (W : Type 0) : Type 0 where
  pub create_event : W → Option ℕ × W
  pub submit : DeviceType → Io → W → Submitted × W
  pub wait : W → Option ℕ × W
  pub overlapped_result : W → Completion × W
  pub cancel_io : DeviceType → W → W

abbrev pub error_invalid_handle : ℕ
error_invalid_handle = 6

abbrev pub error_operation_aborted : ℕ
error_operation_aborted = 995

-- WAIT_TIMEOUT, ERROR_TIMEOUT, ERROR_SEM_TIMEOUT: IsTimeoutError.
abbrev pub is_timeout_error : HalDevice → Bool
is_timeout_error d = d.last_error == 258 || (d.last_error == 1460 || d.last_error == 121)

module _ {W : Type 0} where
  abbrev pub finish : DeviceType → ChipError → Completion → Act W (List ℕ × ℕ)
  finish d e (completed bytes n) b = (done (bytes, n), set_error d 0 b)
  finish d e (refused code) b = (failed e, set_error d code b)

module _ {W : Type 0} (os : Os W) where
  unfoldable pub after_wait : DeviceType → ChipError → Option ℕ → Act W (List ℕ × ℕ)
  after_wait d e (some code) b = (failed e, set_error d code b)
  after_wait d e none b =
      let (c, w) = os.overlapped_result b.world in finish d e c (record b { world = w })

  unfoldable pub await : DeviceType → ChipError → Submitted → Act W (List ℕ × ℕ)
  unfolding after_wait
  await d e (finished c) b = finish d e c b
  await d e pending b =
      let (code, w) = os.wait b.world in after_wait d e code (record b { world = w })

  unfoldable pub with_event : DeviceType → Io → ChipError → Option ℕ → Act W (List ℕ × ℕ)
  unfolding await
  with_event d io e (some code) b = (failed internal_error, set_error d code b)
  with_event d io e none b =
      let (s, w) = os.submit d io b.world in await d e s (record b { world = w })

  -- PerformSyncIo. No call asks it for the length check.
  unfoldable pub perform_sync_io : DeviceType → Io → ChipError → Act W (List ℕ × ℕ)
  unfolding with_event
  perform_sync_io d io e b =
      if (device d b).handle_valid
      then (let (code, w) = os.create_event b.world in
          with_event d io e code (record b { world = w }))
      else (failed communication_error, set_error d error_invalid_handle b)

  -- The loop of Ioctl with the rounds that are left, and the last result: a success ends it, and so
  -- does a cancelled request.
  unfoldable pub ioctl_rounds : ℕ → DeviceType → Io → Result (List ℕ × ℕ) → Act W (List ℕ × ℕ)
  ioctl_rounds zero d io last b = (last, b)
  ioctl_rounds (suc n) d io last b =
      let (r, b') = perform_sync_io d io communication_error b in
      elim (is_done r || (device d b').last_error == error_operation_aborted) [
        | true ↦ (r, b')
        | false ↦ ioctl_rounds n d io r b'
      ]

  unfoldable pub ioctl : DeviceType → ℕ → List ℕ → ℕ → Act W (List ℕ × ℕ)
  unfolding ioctl_rounds
  ioctl d code input out_len =
      ioctl_rounds 10 d (io_control code input out_len) (failed internal_error)

  -- SPI_IOCTL_FULL_DUPLEX. The answer overwrites the buffer, whose first three bytes are the header
  -- and a dummy byte.
  unfoldable pub read_bus : DeviceType → ℕ → ℕ → Act W (List ℕ)
  unfolding ioctl
  read_bus d cmd len b =
      let buffer = (device d b).read_op ∷ cmd ∷ 0 ∷ replicate len 0 in
      let (r, b') = ioctl d 0x4001c24 buffer (3 + len) b in
      elim r [
        | failed e ↦ (failed communication_error, b')
        | done (bytes, moved) ↦
            if ltb moved (3 + len)
            then (failed communication_error, b')
            else (done (take len (drop 3 bytes)), b')
      ]

  unfoldable pub write_bus : DeviceType → ℕ → List ℕ → List ℕ → Act W (Unit {0})
  write_bus d cmd addr bytes b =
      (perform_sync_io d (write_file ((device d b).write_op ∷ cmd ∷ (addr ++ bytes)))
            communication_error
          >>= λ r. pure tt)
        b

  unfoldable pub read_acpi : DeviceType → ℕ → Act W (List ℕ)
  unfolding ioctl
  read_acpi d len b =
      let (r, b') = ioctl d 0x4001c38 [] len b in
      elim r [
        | failed e ↦ (failed communication_error, b')
        | done (bytes, moved) ↦
            if ltb moved len then (failed communication_error, b') else (done (take len bytes), b')
      ]

  -- HalDevice::GetFrame: the bytes of the frame.
  unfoldable pub get_frame_bytes : DeviceType → ℕ → Act W (List ℕ)
  unfolding ioctl
  get_frame_bytes d len = do r ← ioctl d 0x4001c28 [] len; pure r.0

  unfoldable pub control : DeviceType → ℕ → List ℕ → Act W (Unit {0})
  unfolding ioctl
  control d code input = do r ← ioctl d code input 0; pure tt

  abbrev pub set_time_out : DeviceType → ℕ → Act W (Unit {0})
  set_time_out d millisecond = control d 0x4001c2c (le32 millisecond)

  abbrev pub set_block : DeviceType → Bool → Act W (Unit {0})
  set_block d state = control d 0x4001c30 ((if state then 1 else 0) ∷ 0 ∷ 0 ∷ 0 ∷ [])

  abbrev pub set_reset : DeviceType → Bool → Act W (Unit {0})
  set_reset d state = control d 0x4001c34 (le32 (if state then 1 else 0))

  abbrev pub int_open : DeviceType → Act W (Unit {0})
  int_open d = control d 0x4001c00 []

  abbrev pub int_close : DeviceType → Act W (Unit {0})
  int_close d = control d 0x4001c04 []

  -- CancelPendingIo
  abbrev pub cancel_pending_io : DeviceType → Board W → Board W
  cancel_pending_io d b =
      if (device d b).handle_valid then record b { world = os.cancel_io d b.world } else b
