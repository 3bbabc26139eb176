-- ===== src/Himax/Steady/Chip.antt =====
-- The operations of HimaxProtocol.cpp and HimaxChip.cpp over the bus are steady: the command slot and
-- the frame counters are for send_command, init_buffers_and_register and GetFrame alone to change.
use ego_touch_rev.Prelude.{
  ℕ, zero, suc, ◌≡◌, refl, ◌∙◌, inl, inr, List, ◌∷◌, ◌++◌, Bool, Bool-cases,
}
use ego_touch_rev.Afe.{communication_error, verification_failed, timeout}
use ego_touch_rev.Himax.{DeviceType, Board, Result, is_done, Act, pure, device}
use ego_touch_rev.Himax.Hal.{Os, write_file, write_bus, control}
use ego_touch_rev.Himax.Protocol.{
  burst_enable, register_read, register_write, write_and_verify, safe_mode_set_raw, when_valid,
}
use ego_touch_rev.Himax.Sense.{
  select_device, retry, hx_hw_reset_ahb_intf, himax_mcu_read_fw_status, poll_round, safe_mode_round,
  reload_round, poll_interface, himax_mcu_interface_on, hx_sense_on, stop_firmware, enter_safe_mode,
  hx_sense_off, await_reload, himax_mcu_power_on_init,
}
use ego_touch_rev.Himax.Steady.{
  still, IsSteady, pure-IsSteady, fail-IsSteady, bind-IsSteady, attempt-IsSteady, if-IsSteady,
  perform_sync_io-IsSteady, ioctl-IsSteady, read_bus-IsSteady,
}

module _ {W : Type 0} (os : Os W) where
  pub when_valid-IsSteady :
      {A : Type 0} (d : DeviceType) {m : Act W A} → IsSteady m → IsSteady (when_valid os d m)
  when_valid-IsSteady d {m = m} sm = record {
    keeps = λ b. elim (Bool-cases (device d b).handle_valid) [
      | inl v ↦ rw v (sm.keeps b)
      | inr v ↦ rw v refl
    ];
  }

  pub write_bus-IsSteady :
      (d : DeviceType) (cmd : ℕ) (addr bytes : List ℕ) → IsSteady (write_bus os d cmd addr bytes)
  unfolding write_bus
  write_bus-IsSteady d cmd addr bytes = record {
    keeps = λ b.
        (bind-IsSteady
            (perform_sync_io-IsSteady os d
              (write_file ((device d b).write_op ∷ cmd ∷ (addr ++ bytes))) communication_error)
            (λ r. pure-IsSteady tt)).keeps
          b;
  }

  pub control-IsSteady :
      (d : DeviceType) (code : ℕ) (input : List ℕ) → IsSteady (control os d code input)
  unfolding control
  control-IsSteady d code input =
      bind-IsSteady (ioctl-IsSteady os d code input 0) (λ r. pure-IsSteady tt)

  pub ruleset bus_rules = (
    when_valid-IsSteady, bind-IsSteady, pure-IsSteady, fail-IsSteady, if-IsSteady, attempt-IsSteady,
    write_bus-IsSteady, read_bus-IsSteady, control-IsSteady,
  )

  pub burst_enable-IsSteady : (d : DeviceType) (enable : Bool) → IsSteady (burst_enable os d enable)
  unfolding burst_enable
  burst_enable-IsSteady d enable = search bus_rules

  pub register_read-IsSteady :
      (d : DeviceType) (addr len : ℕ) → IsSteady (register_read os d addr len)
  unfolding register_read
  register_read-IsSteady d addr len = search (bus_rules, burst_enable-IsSteady) depth 12

  pub register_write-IsSteady :
      (d : DeviceType) (addr : ℕ) (bytes : List ℕ) → IsSteady (register_write os d addr bytes)
  unfolding register_write
  register_write-IsSteady d addr bytes = search (bus_rules, burst_enable-IsSteady) depth 12

  pub ruleset register_rules =
      (bus_rules, burst_enable-IsSteady, register_read-IsSteady, register_write-IsSteady)

  pub write_and_verify-IsSteady :
      (d : DeviceType) (addr : ℕ) (bytes : List ℕ) (verify_len : ℕ)
      → IsSteady (write_and_verify os d addr bytes verify_len)
  unfolding write_and_verify
  write_and_verify-IsSteady d addr bytes verify_len = search register_rules depth 12

  pub safe_mode_set_raw-IsSteady :
      (d : DeviceType) (state : Bool) → IsSteady (safe_mode_set_raw os d state)
  unfolding safe_mode_set_raw
  safe_mode_set_raw-IsSteady d state = search bus_rules depth 12

  pub select_device-IsSteady : (d : DeviceType) → IsSteady (select_device os d)
  select_device-IsSteady d = when_valid-IsSteady d {m = pure tt} (pure-IsSteady tt)

  pub hx_hw_reset_ahb_intf-IsSteady : (d : DeviceType) → IsSteady (hx_hw_reset_ahb_intf os d)
  unfolding hx_hw_reset_ahb_intf
  hx_hw_reset_ahb_intf-IsSteady d = search (register_rules, select_device-IsSteady) depth 12

  pub himax_mcu_read_fw_status-IsSteady : IsSteady (himax_mcu_read_fw_status os)
  unfolding himax_mcu_read_fw_status
  himax_mcu_read_fw_status-IsSteady = search register_rules depth 12

  pub poll_round-IsSteady :
      (rest : Act W (Unit {0})) → IsSteady rest → IsSteady (poll_round os rest)
  unfolding poll_round
  poll_round-IsSteady rest steady = search (register_rules) depth 12

  pub poll_interface-IsSteady : (n : ℕ) → IsSteady (poll_interface os n)
  unfolding poll_interface
  poll_interface-IsSteady zero = pure-IsSteady tt
  poll_interface-IsSteady (suc n) =
      poll_round-IsSteady (poll_interface os n) (poll_interface-IsSteady n)

  pub hx_sense_on-IsSteady : (flash_mode : Bool) → IsSteady (hx_sense_on os flash_mode)
  unfolding hx_sense_on himax_mcu_interface_on
  hx_sense_on-IsSteady flash_mode = search (register_rules, poll_interface-IsSteady) depth 12

  pub retry-still :
      {A : Type 0} (n : ℕ) (last : Result A) {m : Act W A} (b : Board W)
      → IsSteady m
      → still (retry os n last m b).1 ≡ still b
  unfolding retry
  retry-still zero last b sm = refl
  retry-still (suc n) last {m = m} b sm = elim (Bool-cases (is_done (m b).0)) [
    | inl stop ↦ rw (stop, retry) (sm.keeps b)
    | inr again ↦ rw (again, retry) (retry-still n (m b).0 (m b).1 sm ∙ sm.keeps b)
  ]

  pub retry-IsSteady :
      {A : Type 0} (n : ℕ) (last : Result A) {m : Act W A}
      → IsSteady m
      → IsSteady (retry os n last m)
  retry-IsSteady n last sm = record { keeps = λ b. retry-still n last b sm }

  pub stop_firmware-IsSteady :
      (n cnt : ℕ) (check_en : Bool) (send back : ℕ)
      → IsSteady (stop_firmware os n cnt check_en send back)
  unfolding stop_firmware
  stop_firmware-IsSteady zero cnt check_en send back = pure-IsSteady tt
  stop_firmware-IsSteady (suc n) cnt check_en send back =
      search (register_rules, stop_firmware-IsSteady n) depth 12

  pub safe_mode_round-IsSteady :
      (rest : Act W (Unit {0})) → IsSteady rest → IsSteady (safe_mode_round os rest)
  unfolding safe_mode_round
  safe_mode_round-IsSteady rest steady =
      search (register_rules, retry-IsSteady, safe_mode_set_raw-IsSteady) depth 12

  pub enter_safe_mode-IsSteady : (n : ℕ) → IsSteady (enter_safe_mode os n)
  unfolding enter_safe_mode
  enter_safe_mode-IsSteady zero = fail-IsSteady verification_failed
  enter_safe_mode-IsSteady (suc n) =
      safe_mode_round-IsSteady (enter_safe_mode os n) (enter_safe_mode-IsSteady n)

  pub hx_sense_off-IsSteady : (check_en : Bool) → IsSteady (hx_sense_off os check_en)
  unfolding hx_sense_off
  hx_sense_off-IsSteady check_en =
      bind-IsSteady (stop_firmware-IsSteady 20 0 check_en 0 0) (λ r. enter_safe_mode-IsSteady 16)

  pub reload_round-IsSteady :
      (rest : Act W (Unit {0})) → IsSteady rest → IsSteady (reload_round os rest)
  unfolding reload_round
  reload_round-IsSteady rest steady =
      search (register_rules, himax_mcu_read_fw_status-IsSteady) depth 12

  pub await_reload-IsSteady : (n : ℕ) → IsSteady (await_reload os n)
  unfolding await_reload
  await_reload-IsSteady zero = fail-IsSteady timeout
  await_reload-IsSteady (suc n) =
      reload_round-IsSteady (await_reload os n) (await_reload-IsSteady n)

  pub himax_mcu_power_on_init-IsSteady : IsSteady (himax_mcu_power_on_init os)
  unfolding himax_mcu_power_on_init
  himax_mcu_power_on_init-IsSteady =
      search (register_rules, hx_sense_on-IsSteady, await_reload-IsSteady) depth 12
