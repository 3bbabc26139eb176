-- ===== src/Himax/Sense.antt =====
-- HimaxChip.cpp: resets, sense on and sense off, and the firmware reload.
use ego_touch_rev.Prelude.{
  ℕ, zero, suc, ◌+◌, [], ◌∷◌, Bool, true, false, not, ◌&&◌, ◌||◌, ltb, ◌==◌, if◌then◌else◌, get_or,
}
use ego_touch_rev.Afe.{
  communication_error, invalid_operation, verification_failed, internal_error, timeout,
}
use ego_touch_rev.Himax.{
  DeviceType, master, slave, Result, done, failed, is_done, Act, pure, fail, ◌>>=◌, ◌>>◌, attempt,
  device,
}
use ego_touch_rev.Himax.Registers.{
  le32, addr_conti, addr_incr4, addr_ahb_rdata_byte_0, adr_i2c_psw_lb, data_conti, data_incr4,
  addr_tcon_on_rst, addr_system_reset, addr_ctrl_fw_isr, addr_flag_reset_event, addr_raw_out_sel,
  addr_set_frame_addr, addr_sorting_mode_en, addr_fw_dbg_msg_addr, addr_chk_fw_status,
  addr_chk_dd_status, data_system_reset, data_clear, data_fw_stop, addr_fw_define_2nd_flash_reload,
  data_fw_define_flash_reload_en,
}
use ego_touch_rev.Himax.Hal.{Os, read_bus, write_bus, set_reset}
use ego_touch_rev.Himax.Protocol.{burst_enable, register_read, register_write, safe_mode_set_raw}

module _ {W : Type 0} (os : Os W) where
  -- SelectDevice: every device is there, and may be invalid.
  abbrev pub select_device : DeviceType → Act W (Unit {0})
  select_device d b =
      if (device d b).handle_valid then (done tt, b) else (failed communication_error, b)

  -- `for (i < n) if (m) break;`: the last result.
  unfoldable pub retry : {A : Type 0} → ℕ → Result A → Act W A → Act W A
  retry zero last m b = (last, b)
  retry (suc n) last m b =
      let (r, b') = m b in elim (is_done r) [ true ↦ (r, b') | false ↦ retry n r m b' ]

  unfoldable pub check_bus : Act W (Unit {0})
  check_bus b =
      let (r, b1) = read_bus os slave 0x13 1 b in
      let (r', b2) = read_bus os master 0x13 1 b1 in
      if is_done r
      then (if is_done r' then (done tt, b2) else (failed communication_error, b2))
      else (failed communication_error, b1)

  -- The physical reset stands on the master, whichever device is meant.
  unfoldable pub hx_hw_reset_ahb_intf : DeviceType → Act W (Unit {0})
  hx_hw_reset_ahb_intf d = do
    select_device d
    register_write os d addr_fw_define_2nd_flash_reload (le32 data_clear)
    set_reset os master false
    set_reset os master true
    burst_enable os d true

  unfoldable pub hx_sw_reset_ahb_intf : DeviceType → Act W (Unit {0})
  unfolding retry
  hx_sw_reset_ahb_intf d = do
    select_device d
    safe ← attempt (retry 5 (failed internal_error) (safe_mode_set_raw os d true))
    register_write os d addr_fw_define_2nd_flash_reload (le32 data_fw_define_flash_reload_en)
    register_write os d addr_system_reset (le32 data_system_reset)
    burst_enable os d true

  unfoldable pub hx_is_reload_done_ahb : Act W (Unit {0})
  hx_is_reload_done_ahb = do
    back ← register_read os master addr_fw_define_2nd_flash_reload 4
    (if (get_or back 0 0 == 0xC0) && (get_or back 1 0 == 0x72)
        then pure tt
        else fail invalid_operation)

  unfoldable pub himax_mcu_read_fw_status : Act W (Unit {0})
  himax_mcu_read_fw_status = do
    r0 ← register_read os master addr_fw_dbg_msg_addr 4
    r1 ← register_read os master addr_chk_fw_status 4
    r2 ← register_read os master addr_chk_dd_status 4
    r3 ← register_read os master addr_flag_reset_event 4
    pure tt

  -- A round of the loop of himax_mcu_interface_on, and the rounds behind it.
  unfoldable pub poll_round : Act W (Unit {0}) → Act W (Unit {0})
  poll_round rest = do
    write_bus os master addr_conti [] (data_conti ∷ [])
    write_bus os master addr_incr4 [] (data_incr4 ∷ [])
    conti ← read_bus os master addr_conti 1
    incr4 ← read_bus os master addr_incr4 1
    (if (get_or conti 0 0 == data_conti) && (get_or incr4 0 0 == data_incr4) then pure tt else rest)

  -- The loop with the rounds that are left: after ten of them it goes on without the confirmation.
  unfoldable pub poll_interface : ℕ → Act W (Unit {0})
  unfolding poll_round
  poll_interface zero = pure tt
  poll_interface (suc n) = poll_round (poll_interface n)

  unfoldable pub himax_mcu_interface_on : Act W (Unit {0})
  unfolding poll_interface
  himax_mcu_interface_on = do back ← read_bus os master addr_ahb_rdata_byte_0 4; poll_interface 10

  unfoldable pub hx_sense_on : Bool → Act W (Unit {0})
  unfolding himax_mcu_interface_on
  hx_sense_on flash_mode = do
    himax_mcu_interface_on
    register_write os master addr_ctrl_fw_isr (le32 data_clear)
    (if flash_mode
        then write_bus os master adr_i2c_psw_lb [] (0 ∷ 0 ∷ [])
        else (do set_reset os master false; set_reset os master true))

  -- The first loop of hx_sense_off at round `cnt`, with the rounds that are left and the bytes 0 of
  -- `send_data` and `back_data`.
  unfoldable pub stop_firmware : ℕ → ℕ → Bool → ℕ → ℕ → Act W (Unit {0})
  stop_firmware zero cnt check_en send back = pure tt
  stop_firmware (suc n) cnt check_en send back =
      let again =
        (cnt == 0) || (not (back == 0xA5) && (not (back == 0x00) && not (back == 0x87))) in
      let send' = if again then data_fw_stop else send in
      (do
        (if again then register_write os master addr_ctrl_fw_isr (le32 data_fw_stop) else pure tt)
        status ← register_read os master addr_chk_fw_status 4
        (if not (get_or status 0 0 == 0x05) || not check_en then pure tt else (do
          isr ← register_read os master addr_ctrl_fw_isr 4
          (if not (send' == 0x87) && (ltb (cnt + 1) 20 && check_en)
              then stop_firmware n (cnt + 1) check_en send' (get_or isr 0 0)
              else pure tt))))

  -- A round of the second loop, and the rounds behind it.
  unfoldable pub safe_mode_round : Act W (Unit {0}) → Act W (Unit {0})
  unfolding retry
  safe_mode_round rest = do
    safe ← attempt (retry 5 (failed internal_error) (safe_mode_set_raw os master true))
    status ← register_read os master addr_chk_fw_status 4
    (if get_or status 0 0 == 0x0C
        then register_write os master addr_tcon_on_rst (le32 addr_tcon_on_rst)
        else (do set_reset os master false; set_reset os master true; rest))

  -- The second loop, with the rounds that are left.
  unfoldable pub enter_safe_mode : ℕ → Act W (Unit {0})
  unfolding safe_mode_round
  enter_safe_mode zero = fail verification_failed
  enter_safe_mode (suc n) = safe_mode_round (enter_safe_mode n)

  unfoldable pub hx_sense_off : Bool → Act W (Unit {0})
  unfolding stop_firmware enter_safe_mode
  hx_sense_off check_en = do stop_firmware 20 0 check_en 0 0; enter_safe_mode 16

  -- A round of the wait for the firmware, and the rounds behind it. The status reads are only logged.
  unfoldable pub reload_round : Act W (Unit {0}) → Act W (Unit {0})
  unfolding himax_mcu_read_fw_status
  reload_round rest = do
    back ← register_read os master addr_fw_define_2nd_flash_reload 4
    (if (get_or back 3 0 == 0x00)
          && ((get_or back 2 0 == 0x00) && ((get_or back 1 0 == 0x72) && (get_or back 0 0 == 0xC0)))
        then pure tt
        else (do attempt himax_mcu_read_fw_status; rest))

  -- The wait with the rounds that are left.
  unfoldable pub await_reload : ℕ → Act W (Unit {0})
  unfolding reload_round
  await_reload zero = fail timeout
  await_reload (suc n) = reload_round (await_reload n)

  unfoldable pub himax_mcu_power_on_init : Act W (Unit {0})
  unfolding await_reload hx_sense_on
  himax_mcu_power_on_init = do
    register_write os master addr_raw_out_sel (0 ∷ 0 ∷ 0 ∷ 0 ∷ [])
    register_write os master addr_sorting_mode_en (0 ∷ 0 ∷ 0 ∷ 0 ∷ [])
    register_write os master addr_set_frame_addr (1 ∷ 0 ∷ 0 ∷ 0 ∷ [])
    register_write os master addr_fw_define_2nd_flash_reload (0 ∷ 0 ∷ 0 ∷ 0 ∷ [])
    hx_sense_on false
    await_reload 30
