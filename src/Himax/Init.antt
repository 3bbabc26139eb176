-- ===== src/Himax/Init.antt =====
-- HimaxChip.cpp: the read policy, the chain of Init, Deinit and HoldReset, and the ports that the
-- controller takes.
use ego_touch_rev.Prelude.{
  ℕ, ◌+◌, List, [], ◌∷◌, Bool, true, false, Option, none, some, if◌then◌else◌, replicate,
}
use ego_touch_rev.Afe.{
  verification_failed, internal_error, ChipResult, ok, Afe, BusPort, connected, unconnected,
  afe_start_calibration, afe_force_to_scan_rate, reset_stylus_state,
}
use ego_touch_rev.Himax.{
  DeviceType, master, slave, HalDevice, Board, done, failed, is_done, chip_result, Act, pure, ◌>>=◌,
  ◌>>◌, attempt, on_board,
}
use ego_touch_rev.Himax.Registers.{
  le32, addr_raw_out_sel, addr_set_frame_addr, addr_sorting_mode_en, addr_rawdata_addr,
  addr_rawdata_end, addr_fw_define_flash_reload, data_fw_define_flash_reload_dis,
  data_fw_define_flash_reload_en,
}
use ego_touch_rev.Himax.Hal.{
  Os, set_block, set_time_out, set_reset, int_open, int_close, cancel_pending_io,
}
use ego_touch_rev.Himax.Protocol.{register_write, write_and_verify, send_command, when_valid}
use ego_touch_rev.Himax.Sense.{
  select_device, retry, hx_hw_reset_ahb_intf, himax_mcu_power_on_init, hx_sense_off,
}

-- THP_INSPECTION_ENUM
pub data Inspection : Type 0 where
  hx_rawdata hx_act_idle_rawdata hx_lp_idle_rawdata hx_back_normal ego_rawdata : Inspection

-- The byte that himax_switch_data_type writes for a mode.
abbrev pub data_type_code : Inspection → ℕ
data_type_code ego_rawdata = 0xF6
data_type_code hx_back_normal = 0x00
data_type_code _ = 0x0A

-- The byte that himax_switch_mode_inspection writes twice.
abbrev pub sorting_code : Inspection → ℕ
sorting_code hx_act_idle_rawdata = 0x22
sorting_code hx_lp_idle_rawdata = 0x50
sorting_code _ = 0x00

-- The constructor of HalDevice, from the errors of CreateFile and CreateEvent. Without an event the
-- codes are left unset.
unfoldable pub new_hal_device : DeviceType → Option ℕ → Option ℕ → HalDevice
new_hal_device d file_error (some e) = record {
  handle_valid = false;
  last_error = e;
  read_op = 0;
  write_op = 0;
}
new_hal_device slave (some e) none = record {
  handle_valid = false;
  last_error = e;
  read_op = 0xF5;
  write_op = 0xF4;
}
new_hal_device slave none none = record {
  handle_valid = true;
  last_error = 0;
  read_op = 0xF5;
  write_op = 0xF4;
}
new_hal_device _ (some e) none = record {
  handle_valid = false;
  last_error = e;
  read_op = 0xF3;
  write_op = 0xF2;
}
new_hal_device _ none none = record {
  handle_valid = true;
  last_error = 0;
  read_op = 0xF3;
  write_op = 0xF2;
}

module _ {W : Type 0} (os : Os W) where
  abbrev pub apply_policy : Bool → ℕ → DeviceType → Act W (Unit {0})
  apply_policy block timeout_ms d =
      when_valid os d (do set_block os d block; set_time_out os d timeout_ms)

  unfoldable pub set_frame_read_policy : Bool → ℕ → Act W (Unit {0})
  set_frame_read_policy block timeout_ms = do
    apply_policy block timeout_ms master
    apply_policy block timeout_ms slave

  -- What the controller takes for its bus.
  unfoldable pub bus_port : BusPort (Board W)
  bus_port = record {
    send_command =
        λ op value b. let (r, b') = send_command os master op value b in (chip_result r, b');
    set_frame_read_policy =
        λ block ms b. let (r, b') = set_frame_read_policy block ms b in (chip_result r, b');
  }

  unfoldable pub init_buffers_and_register : Act W (Unit {0})
  init_buffers_and_register = do
    register_write os master 0x10007550 (replicate 0x50 0)
    register_write os master 0x1000753C (0 ∷ 0 ∷ 0 ∷ 0 ∷ [])
    (λ b. (done tt, record b { current_slot = 0 }))

  unfoldable pub himax_mcu_reload_disable : Bool → Act W (Unit {0})
  himax_mcu_reload_disable disable =
      register_write os master addr_fw_define_flash_reload
        (le32 (if disable then data_fw_define_flash_reload_dis else data_fw_define_flash_reload_en))

  -- A number of attempts at a verified write, of which one has to succeed.
  abbrev pub persist : ℕ → Act W (Unit {0}) → Act W (Unit {0})
  persist n m b =
      let (r, b') = retry os n (failed internal_error) m b in
      if is_done r then (done tt, b') else (failed verification_failed, b')

  unfoldable pub himax_mcu_assign_sorting_mode : List ℕ → Act W (Unit {0})
  himax_mcu_assign_sorting_mode bytes =
      persist 10 (write_and_verify os master addr_sorting_mode_en bytes 0)

  unfoldable pub himax_switch_mode_inspection : Inspection → Act W (Unit {0})
  unfolding himax_mcu_assign_sorting_mode
  himax_switch_mode_inspection mode = do
    persist 20 (write_and_verify os master addr_rawdata_addr (le32 addr_rawdata_end) 2)
    himax_mcu_assign_sorting_mode (sorting_code mode ∷ sorting_code mode ∷ 0 ∷ 0 ∷ [])

  -- `do … while (!step_ok && --cnt > 0)` from 50: at most 50 attempts, and the last one's error.
  unfoldable pub himax_switch_data_type : DeviceType → Inspection → Act W (Unit {0})
  himax_switch_data_type d mode = do
    select_device os d
    retry os 50 (failed internal_error)
        (write_and_verify os d addr_raw_out_sel (data_type_code mode ∷ 0 ∷ 0 ∷ 0 ∷ []) 0)

  unfoldable pub hx_set_n_frame : ℕ → Act W (Unit {0})
  hx_set_n_frame n_frame = when_valid os master (do
    write_and_verify os master addr_set_frame_addr (le32 n_frame) 0
    write_and_verify os master addr_set_frame_addr (le32 (0x7F0C0000 + n_frame)) 0)

  -- Init up to the read policy.
  unfoldable pub init_board : Act W (Unit {0})
  unfolding himax_mcu_reload_disable himax_switch_mode_inspection hx_set_n_frame
      himax_switch_data_type set_frame_read_policy
  init_board = do
    hx_hw_reset_ahb_intf os master
    himax_mcu_reload_disable false
    himax_switch_mode_inspection ego_rawdata
    hx_set_n_frame 1
    himax_mcu_power_on_init os
    himax_switch_data_type master ego_rawdata
    register_write os master addr_rawdata_addr (0xA5 ∷ 0x5A ∷ 0 ∷ 0 ∷ [])
    himax_switch_data_type slave ego_rawdata
    register_write os slave addr_rawdata_addr (0xA5 ∷ 0x5A ∷ 0 ∷ 0 ∷ [])
    int_open os master
    int_open os slave
    set_frame_read_policy true 100

  -- The rest of Init: failures of the two commands are only logged.
  unfoldable pub make_ready : Afe (Board W) → Afe (Board W)
  make_ready a =
      let a1 = reset_stylus_state bus_port (record a { conn_state = connected }) in
      let a2 = (afe_start_calibration bus_port 0 a1).1 in (afe_force_to_scan_rate bus_port 0 a2).1

  unfoldable pub init : Afe (Board W) → ChipResult × Afe (Board W)
  unfolding make_ready
  init a =
      let (r, a1) = on_board init_board a in
      if is_done r then (ok, make_ready a1) else (chip_result r, a1)

  -- The constructor: the members that the controller does not own, around the three devices.
  unfoldable pub new_board : HalDevice → HalDevice → HalDevice → W → Board W
  new_board m s i w = record {
    master_device = m;
    slave_device = s;
    interrupt_device = i;
    current_slot = 0;
    frame_count = 0;
    zero_frame_count = 0;
    stylus_active = false;
    last_master_was_read = true;
    world = w;
  }

  -- The steps of Deinit, whose failures are only logged.
  unfoldable pub deinit_board : Bool → Act W (Unit {0})
  deinit_board check_en = do
    off ← attempt (hx_sense_off os check_en)
    m ← attempt (int_close os master)
    s ← attempt (int_close os slave)
    pure tt

  -- Deinit always succeeds.
  unfoldable pub deinit : Bool → Afe (Board W) → Afe (Board W)
  unfolding deinit_board
  deinit check_en a = (on_board (deinit_board check_en) (record a { conn_state = unconnected })).1

  -- The destructor.
  unfoldable pub destroy : Afe (Board W) → Afe (Board W)
  unfolding deinit
  destroy a = elim a.conn_state [ unconnected ↦ a | _ ↦ deinit false a ]

  abbrev pub cancel_pending_frame_read : Board W → Board W
  cancel_pending_frame_read b = cancel_pending_io os slave (cancel_pending_io os master b)

  -- The steps of HoldReset, whose failures are only logged.
  unfoldable pub hold_board : Act W (Unit {0})
  hold_board = do
    r ← attempt (set_reset os master false)
    m ← attempt (int_close os master)
    s ← attempt (int_close os slave)
    pure tt

  unfoldable pub hold_reset : Afe (Board W) → Afe (Board W)
  unfolding hold_board
  hold_reset a =
      (on_board hold_board
        (record a { conn_state = unconnected; bus = cancel_pending_frame_read a.bus })).1
