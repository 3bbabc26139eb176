-- ===== src/Afe.antt =====
-- AfeController: EGoTouchService/Device/himax/HimaxAfe.h and .cpp, with Device/common/StylusState.h,
-- Device/common/DeviceError.h and himax/AfeTypes.h. `Stylus` has the frame-by-frame tracking of the
-- pen's frequency. The bus under the chip is a port.
pub mod Stylus
pub mod Guards
pub mod Tracking
pub mod Spacing
pub mod Bus
mod Tests
use Prim.Native.Nat.{bit_and}
use ego_touch_rev.Prelude.{
  ℕ, zero, suc, ◌+◌, ◌-◌, ◌%◌, ◌^◌, List, [], ◌∷◌, Bool, true, false, ltb, leb, ◌==◌, if◌then◌else◌,
}

pub data ChipError : Type 0 where
  success communication_error timeout verification_failed invalid_operation internal_error :
      ChipError

-- ChipResult<>
pub data ChipResult : Type 0 where
  ok : ChipResult
  unexpected : ChipError → ChipResult

abbrev pub has_value : ChipResult → Bool
has_value ok = true
has_value (unexpected e) = false

-- `unknown` stands for any value of the enum's byte that no enumerator names.
pub data AfeCommand : Type 0 where
  clear_status enable_freq_shift disable_freq_shift start_calibration enter_idle : AfeCommand
  force_exit_idle force_to_freq_point force_to_scan_rate init_stylus set_stylus_id : AfeCommand
  disconnect_stylus : AfeCommand
  unknown : ℕ → AfeCommand

pub data AfeMode : Type 0 where
  normal idle turbo : AfeMode

pub data ConnectionState : Type 0 where
  unconnected connected error : ConnectionState

pub record StylusFreqPair : Type 0 where
  pub freq0_cmd : ℕ
  pub freq1_cmd : ℕ

-- The `uint32` counters wrap; the other numbers are `uint8`.
pub record StylusState : Type 0 where
  pub is_connected : Bool
  pub pen_id : ℕ
  pub freq_pair : StylusFreqPair
  pub freq_idx : ℕ
  pub switch_policy : ℕ
  pub switch_target_idx : ℕ
  pub switch_req_pending : Bool
  pub frame_counter : ℕ
  pub switch_req_frame : ℕ
  pub last_switch_frame : ℕ
  pub bt_freq1 : ℕ
  pub bt_freq2 : ℕ
  pub bt_active : Bool
  pub bt_last_seen_frame : ℕ
  pub bt_pressure_cleared : Bool
  pub bt_mismatch_frame : ℕ
  pub bt_mismatch_active : Bool

abbrev pub new_stylus : StylusState
new_stylus = record {
  is_connected = false;
  pen_id = 0;
  freq_pair = record { freq0_cmd = 0; freq1_cmd = 0 };
  freq_idx = 0;
  switch_policy = 0;
  switch_target_idx = 0;
  switch_req_pending = false;
  frame_counter = 0;
  switch_req_frame = 0;
  last_switch_frame = 0;
  bt_freq1 = 0;
  bt_freq2 = 0;
  bt_active = false;
  bt_last_seen_frame = 0;
  bt_pressure_cleared = false;
  bt_mismatch_frame = 0;
  bt_mismatch_active = false;
}

-- The bus as the controller uses it: HimaxProtocol::send_command on the master device, and
-- Chip::SetFrameReadPolicy. Either may fail, and either may change the bus.
pub record BusPort (B : Type 0) : Type 0 where
  pub send_command : ℕ → ℕ → B → ChipResult × B
  pub set_frame_read_policy : Bool → ℕ → B → ChipResult × B

-- The parts of the chip that the controller reads and writes, and its own state.
pub record Afe (B : Type 0) : Type 0 where
  pub conn_state : ConnectionState
  pub afe_mode : AfeMode
  pub frame_buffer : List ℕ
  pub bus : B
  pub stylus : StylusState

abbrev pub is_connected_state : ConnectionState → Bool
is_connected_state connected = true
is_connected_state _ = false

abbrev pub is_idle_mode : AfeMode → Bool
is_idle_mode idle = true
is_idle_mode _ = false

-- kFreqTable: id, f0, f1.
abbrev pub freq_table : List (ℕ × ℕ × ℕ)
freq_table =
    (0, 0x00A1, 0x0018)
    ∷ (1, 0x00A2, 0x0019)
    ∷ (2, 0x00A3, 0x001A)
    ∷ (3, 0x00A4, 0x001B)
    ∷ (5, 0x00A1, 0x0018)
    ∷ []

-- The loop of SetStylusId, with the default for an id that is not in the table.
unfoldable pub lookup_pair : ℕ → List (ℕ × ℕ × ℕ) → StylusFreqPair
lookup_pair pen [] = record { freq0_cmd = 0x00A1; freq1_cmd = 0x0018 }
lookup_pair pen ((id, f0, f1) ∷ rest) =
    if id == pen then record { freq0_cmd = f0; freq1_cmd = f1 } else lookup_pair pen rest

module _ {B : Type 0} (port : BusPort B) where
  -- HimaxProtocol::send_command on the controller's bus.
  abbrev pub send : ℕ → ℕ → Afe B → ChipResult × Afe B
  send op value a = let (res, b) = port.send_command op value a.bus in (res, record a { bus = b })

  abbrev pub set_policy : ℕ → Afe B → ChipResult × Afe B
  set_policy milliseconds a =
      let (res, b) = port.set_frame_read_policy true milliseconds a.bus in
      (res, record a { bus = b })

  -- The guard at the head of every command.
  abbrev pub when_connected : Afe B → ChipResult × Afe B → ChipResult × Afe B
  when_connected a body =
      if is_connected_state a.conn_state then body else (unexpected invalid_operation, a)

  unfoldable pub afe_enter_idle : ℕ → Afe B → ChipResult × Afe B
  afe_enter_idle param a = when_connected a (
      let (res, a1) = send 0x0a param a in
      if has_value res
      then (let (res2, a2) = set_policy 200 a1 in
          if has_value res2 then (ok, record a2 { afe_mode = idle }) else (res2, a2))
      else (res, a1))

  -- Chip::NotifyTouchWakeup
  unfoldable pub notify_touch_wakeup : Afe B → ChipResult × Afe B
  notify_touch_wakeup a = when_connected a (
      if is_idle_mode a.afe_mode
      then (let (res, a1) = set_policy 100 a in
          if has_value res then (ok, record a1 { afe_mode = normal }) else (res, a1))
      else (ok, a))

  unfoldable pub afe_force_exit_idle : Afe B → ChipResult × Afe B
  unfolding notify_touch_wakeup
  afe_force_exit_idle a = when_connected a (notify_touch_wakeup a)

  unfoldable pub afe_start_calibration : ℕ → Afe B → ChipResult × Afe B
  afe_start_calibration param a = when_connected a (send 0x01 param a)

  unfoldable pub afe_enable_freq_shift : Afe B → ChipResult × Afe B
  afe_enable_freq_shift a = when_connected a (send 0x0d 0x00 a)

  -- Nothing is sent in AUTO mode (policy 2).
  unfoldable pub afe_disable_freq_shift : Afe B → ChipResult × Afe B
  afe_disable_freq_shift a =
      when_connected a (if a.stylus.switch_policy == 2 then (ok, a) else send 0x02 0x00 a)

  -- Bit 0x40 clears the pending request; bit 0x20 is only logged.
  unfoldable pub afe_clear_status : ℕ → Afe B → ChipResult × Afe B
  afe_clear_status cmd_val a = when_connected a (
    ok,
    (if bit_and cmd_val 0x40 == 0
        then a
        else record a { stylus = record (a.stylus) { switch_req_pending = false } }),
  )

  unfoldable pub afe_force_to_freq_point : ℕ → Afe B → ChipResult × Afe B
  afe_force_to_freq_point freq_idx a = when_connected a (send 0x0c freq_idx a)

  unfoldable pub afe_force_to_scan_rate : ℕ → Afe B → ChipResult × Afe B
  afe_force_to_scan_rate rate_idx a = when_connected a (send 0x0e rate_idx a)

  -- The pen id is not read.
  unfoldable pub afe_init_stylus : ℕ → Afe B → ChipResult × Afe B
  unfolding afe_enable_freq_shift
  afe_init_stylus pen_id a = when_connected a (
      let (res, a1) = afe_enable_freq_shift a in
      if has_value res
      then (
        ok,
        record a1 {
          stylus = record (a1.stylus) {
            is_connected = true;
            freq_idx = 0;
            switch_policy = 2;
            switch_target_idx = 0;
            switch_req_pending = false;
          };
        },
      )
      else (res, a1))

  unfoldable pub afe_set_stylus_id : ℕ → Afe B → ChipResult × Afe B
  afe_set_stylus_id pen_id a = when_connected a (
    ok,
    record a {
      stylus = record (a.stylus) { pen_id = pen_id; freq_pair = lookup_pair pen_id freq_table };
    },
  )

  -- A failure of DisableFreqShift is ignored.
  unfoldable pub afe_disconnect_stylus : Afe B → ChipResult × Afe B
  unfolding afe_disable_freq_shift
  afe_disconnect_stylus a = when_connected a (
      let a1 = if a.stylus.switch_policy == 2 then a else (afe_disable_freq_shift a).1 in
      (ok, record a1 { stylus = new_stylus }))

  -- ResetStylusState, which the chip's initialisation calls.
  unfoldable pub reset_stylus_state : Afe B → Afe B
  reset_stylus_state a = record a { stylus = new_stylus }

  -- SendCommand
  unfoldable pub afe_send_command : AfeCommand → ℕ → Afe B → ChipResult × Afe B
  unfolding afe_enter_idle afe_force_exit_idle afe_start_calibration afe_enable_freq_shift
      afe_disable_freq_shift afe_clear_status afe_force_to_freq_point afe_force_to_scan_rate
      afe_init_stylus afe_set_stylus_id afe_disconnect_stylus
  afe_send_command clear_status param a = afe_clear_status param a
  afe_send_command enable_freq_shift param a = afe_enable_freq_shift a
  afe_send_command disable_freq_shift param a = afe_disable_freq_shift a
  afe_send_command start_calibration param a = afe_start_calibration param a
  afe_send_command enter_idle param a = afe_enter_idle param a
  afe_send_command force_exit_idle param a = afe_force_exit_idle a
  afe_send_command force_to_freq_point param a = afe_force_to_freq_point param a
  afe_send_command force_to_scan_rate param a = afe_force_to_scan_rate param a
  afe_send_command init_stylus param a = afe_init_stylus param a
  afe_send_command set_stylus_id param a = afe_set_stylus_id param a
  afe_send_command disconnect_stylus param a = afe_disconnect_stylus a
  afe_send_command (unknown n) param a = (unexpected invalid_operation, a)
