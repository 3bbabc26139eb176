-- ===== src/Himax/Frame.antt =====
-- HimaxChip.cpp: reading frames, the detection of input in them, and the entry into idle.
use ego_touch_rev.Prelude.{
  ℕ, ◌+◌, ◌%◌, ◌^◌, List, ◌++◌, Bool, true, false, not, ◌&&◌, ◌||◌, leb, ◌==◌, if◌then◌else◌,
  length, take, drop,
}
use ego_touch_rev.Afe.{
  timeout, ChipResult, ok, unexpected, Afe, is_idle_mode, notify_touch_wakeup, afe_enter_idle,
}
use ego_touch_rev.Afe.Stylus.{read_u16}
use ego_touch_rev.Himax.{
  DeviceType, master, slave, Board, Result, done, failed, is_done, chip_result, device,
}
use ego_touch_rev.Himax.Hal.{Os, is_timeout_error, get_frame_bytes}
use ego_touch_rev.Himax.Init.{bus_port, init, deinit, hold_reset, cancel_pending_frame_read}
use ego_touch_rev.Himax.Sense.{check_bus}
use ego_touch_rev.Runtime.{ChipPort}

-- The words 54 and 55 of the master's status, whose low bytes are 0xFF without a touch.
unfoldable pub is_finger_detected : List ℕ → Bool
unfolding read_u16
is_finger_detected buffer =
    not
      ((read_u16 buffer (4807 + 108) % 256 == 0xFF) && (read_u16 buffer (4807 + 110) % 256 == 0xFF))

-- The first two words of the slave's status, behind its header of 7 bytes.
unfoldable pub is_stylus_detected : List ℕ → Bool
unfolding read_u16
is_stylus_detected buffer =
    not ((read_u16 buffer (5063 + 7) % 256 == 0xFF) && (read_u16 buffer (5063 + 9) % 256 == 0xFF))

-- Bytes read into the buffer from `off` on; a failed read is taken to write nothing.
unfoldable pub write_at : ℕ → List ℕ → List ℕ → List ℕ
write_at off bytes buffer = take off buffer ++ (bytes ++ drop (off + length bytes) buffer)

abbrev pub idle_entry_threshold : ℕ
idle_entry_threshold = 600

module _ {W : Type 0} (os : Os W) where
  -- One device's frame into the buffer.
  unfoldable pub read_frame : DeviceType → ℕ → ℕ → Afe (Board W) → Result (Unit {0}) × Afe (Board W)
  unfolding write_at
  read_frame d off len a =
      let (r, b) = get_frame_bytes os d len a.bus in
      elim r [
        | failed e ↦ (failed e, record a { bus = b })
        | done bytes ↦ (
          done tt,
          record a { bus = b; frame_buffer = write_at off (take len bytes) a.frame_buffer },
        )
      ]

  -- The error that GetFrame returns for a device whose read failed.
  abbrev pub read_error : DeviceType → Result (Unit {0}) → Board W → ChipResult
  read_error d r b = if is_timeout_error (device d b) then unexpected timeout else chip_result r

  -- The idle mode: a frame only wakes the chip up, and is not handed on.
  unfoldable pub get_idle_frame : Afe (Board W) → ChipResult × Afe (Board W)
  unfolding read_frame
  get_idle_frame a =
      let (m, a1) = read_frame master 0 5063 a in
      let (s, a2) = read_frame slave 5063 339 a1 in
      if (is_done m && is_done s)
        && (is_finger_detected a2.frame_buffer || is_stylus_detected a2.frame_buffer)
      then (unexpected timeout, (notify_touch_wakeup (bus_port os) a2).1)
      else (unexpected timeout, a2)

  -- The master is left out on every other frame while a pen is there.
  abbrev pub skips_master : Board W → Bool
  skips_master b = not (b.frame_count % 2 == 0) && b.stylus_active

  -- What follows a good read: the counters, the pen's presence, and idle after enough empty frames.
  unfoldable pub count_frame : Bool → Afe (Board W) → Afe (Board W)
  count_frame skipped a =
      let stylus_now = is_stylus_detected a.frame_buffer in
      let zeros = (a.bus.zero_frame_count + 1) % 2 ^ 32 in
      let b = record (a.bus) {
        last_master_was_read = not skipped;
        frame_count = (a.bus.frame_count + 1) % 2 ^ 32;
        stylus_active = stylus_now;
      } in
      if is_finger_detected a.frame_buffer || stylus_now
      then record a { bus = record b { zero_frame_count = 0 } }
      else if leb idle_entry_threshold zeros
      then (let a1 =
            (afe_enter_idle (bus_port os) 0 (record a {
              bus = record b { zero_frame_count = zeros; stylus_active = false };
            })).1 in
          record a1 { bus = record (a1.bus) { zero_frame_count = 0 } })
      else record a { bus = record b { zero_frame_count = zeros } }

  unfoldable pub get_normal_frame : Afe (Board W) → ChipResult × Afe (Board W)
  unfolding read_frame count_frame
  get_normal_frame a =
      let skip = skips_master a.bus in
      let (s, a1) = read_frame slave 5063 339 a in
      if not (is_done s)
      then (read_error slave s a1.bus, a1)
      else if skip
      then (ok, count_frame true a1)
      else (let (m, a2) = read_frame master 0 5063 a1 in
          if not (is_done m) then (read_error master m a2.bus, a2) else (ok, count_frame false a2))

  unfoldable pub get_frame : Afe (Board W) → ChipResult × Afe (Board W)
  unfolding get_idle_frame get_normal_frame
  get_frame a = if is_idle_mode a.afe_mode then get_idle_frame a else get_normal_frame a

  -- What the runtime takes for its chip.
  unfoldable pub chip_port : ChipPort (Board W)
  unfolding get_frame
  chip_port = record {
    init = init os;
    deinit = deinit os false;
    check_bus = λ a. let (r, b) = check_bus os a.bus in (chip_result r, record a { bus = b });
    get_frame = get_frame;
    hold_reset = hold_reset os;
    cancel_pending_frame_read = λ a. record a { bus = cancel_pending_frame_read os a.bus };
  }
