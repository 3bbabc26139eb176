-- ===== src/Himax/Steady/Setup.antt =====
-- The rest of the steady operations, Init's chain among them, and the one that moves the command slot.
use ego_touch_rev.Prelude.{
  ℕ, ◌+◌, ◌%◌, ◌≡◌, refl, ap, ◌∙◌, inl, inr, List, [], ◌∷◌, Bool, true, false, if◌then◌else◌,
  Bool-cases,
}
use ego_touch_rev.Afe.{internal_error}
use ego_touch_rev.Himax.{
  DeviceType, master, slave, Board, Result, done, failed, is_done, Act, continue, ◌>>=◌, ◌>>◌,
  device,
}
use ego_touch_rev.Himax.Registers.{addr_rawdata_addr}
use ego_touch_rev.Himax.Hal.{Os, read_bus, int_open}
use ego_touch_rev.Himax.Protocol.{register_write, when_valid, next_slot, send_command}
use ego_touch_rev.Himax.Sense.{retry, check_bus}
use ego_touch_rev.Himax.Init.{
  Inspection, ego_rawdata, set_frame_read_policy, himax_mcu_reload_disable, persist,
  himax_mcu_assign_sorting_mode, himax_switch_mode_inspection, himax_switch_data_type,
  hx_set_n_frame, init_board,
}
use ego_touch_rev.Himax.Steady.{still, IsSteady, bind-IsSteady, read_bus-IsSteady}
use ego_touch_rev.Himax.Steady.Chip.{
  register_rules, register_read-IsSteady, register_write-IsSteady, write_and_verify-IsSteady,
  retry-still, retry-IsSteady, select_device-IsSteady, hx_hw_reset_ahb_intf-IsSteady,
  himax_mcu_power_on_init-IsSteady, control-IsSteady,
}

module _ {W : Type 0} (os : Os W) where
  pub check_bus-IsSteady : IsSteady (check_bus os)
  unfolding check_bus
  check_bus-IsSteady = record {
    keeps = λ b.
        let first = (read_bus-IsSteady os slave 0x13 1).keeps b in
        let b1 = (read_bus os slave 0x13 1 b).1 in
        let second = (read_bus-IsSteady os master 0x13 1).keeps b1 in
        elim (Bool-cases (is_done (read_bus os slave 0x13 1 b).0)) [
          | inl t ↦ elim (Bool-cases (is_done (read_bus os master 0x13 1 b1).0)) [
            | inl t' ↦ rw (t, t', check_bus) (second ∙ first)
            | inr t' ↦ rw (t, t', check_bus) (second ∙ first)
          ]
          | inr t ↦ rw (t, check_bus) first
        ];
  }

  pub set_frame_read_policy-IsSteady :
      (block : Bool) (ms : ℕ) → IsSteady (set_frame_read_policy os block ms)
  unfolding set_frame_read_policy
  set_frame_read_policy-IsSteady block ms = search (register_rules) depth 12

  himax_mcu_reload_disable-IsSteady :
      (disable : Bool) → IsSteady (himax_mcu_reload_disable os disable)
  unfolding himax_mcu_reload_disable
  himax_mcu_reload_disable-IsSteady disable = register_write-IsSteady os master _ _

  persist-IsSteady : (n : ℕ) (m : Act W (Unit {0})) → IsSteady m → IsSteady (persist os n m)
  persist-IsSteady n m sm = record {
    keeps = λ b.
        let now = retry-still os n (failed internal_error) b sm in
        elim (Bool-cases (is_done (retry os n (failed internal_error) m b).0)) [
          | inl t ↦ rw t now
          | inr t ↦ rw t now
        ];
  }

  assign_sorting_mode-IsSteady :
      (bytes : List ℕ) → IsSteady (himax_mcu_assign_sorting_mode os bytes)
  unfolding himax_mcu_assign_sorting_mode
  assign_sorting_mode-IsSteady bytes = persist-IsSteady 10 _ (write_and_verify-IsSteady os _ _ _ _)

  switch_mode-IsSteady : (mode : Inspection) → IsSteady (himax_switch_mode_inspection os mode)
  unfolding himax_switch_mode_inspection
  switch_mode-IsSteady mode =
      bind-IsSteady (persist-IsSteady 20 _ (write_and_verify-IsSteady os _ _ _ _))
        (λ r. assign_sorting_mode-IsSteady _)

  switch_data_type-IsSteady :
      (d : DeviceType) (mode : Inspection) → IsSteady (himax_switch_data_type os d mode)
  unfolding himax_switch_data_type
  switch_data_type-IsSteady d mode =
      bind-IsSteady (select_device-IsSteady os d)
        (λ r. retry-IsSteady os 50 (failed internal_error) (write_and_verify-IsSteady os _ _ _ _))

  hx_set_n_frame-IsSteady : (n : ℕ) → IsSteady (hx_set_n_frame os n)
  unfolding hx_set_n_frame
  hx_set_n_frame-IsSteady n = search (register_rules, write_and_verify-IsSteady os) depth 12

  then-IsSteady :
      {A C : Type 0} {m : Act W A} {k : Act W C} → IsSteady m → IsSteady k → IsSteady (m >> k)
  then-IsSteady sm sk = bind-IsSteady sm (λ a. sk)

  -- The second half of Init's chain.
  arm_board-IsSteady : IsSteady (
      himax_switch_data_type os master ego_rawdata
      >> (register_write os master addr_rawdata_addr (0xA5 ∷ 0x5A ∷ 0 ∷ 0 ∷ [])
          >> (himax_switch_data_type os slave ego_rawdata
              >> (register_write os slave addr_rawdata_addr (0xA5 ∷ 0x5A ∷ 0 ∷ 0 ∷ [])
                  >> (int_open os master
                      >> (int_open os slave >> set_frame_read_policy os true 100))))))
  arm_board-IsSteady = then-IsSteady (switch_data_type-IsSteady master ego_rawdata) (
      then-IsSteady (register_write-IsSteady os master addr_rawdata_addr (0xA5 ∷ 0x5A ∷ 0 ∷ 0 ∷ []))
        (then-IsSteady (switch_data_type-IsSteady slave ego_rawdata) (
          then-IsSteady
            (register_write-IsSteady os slave addr_rawdata_addr (0xA5 ∷ 0x5A ∷ 0 ∷ 0 ∷ []))
            (then-IsSteady (control-IsSteady os master 0x4001c00 []) (
              then-IsSteady (control-IsSteady os slave 0x4001c00 [])
                (set_frame_read_policy-IsSteady true 100))))))

  -- Init's chain of register accesses.
  pub init_board-IsSteady : IsSteady (init_board os)
  unfolding init_board
  init_board-IsSteady = then-IsSteady (hx_hw_reset_ahb_intf-IsSteady os master) (
      then-IsSteady (himax_mcu_reload_disable-IsSteady false) (
        then-IsSteady (switch_mode-IsSteady ego_rawdata) (
          then-IsSteady (hx_set_n_frame-IsSteady 1)
            (then-IsSteady (himax_mcu_power_on_init-IsSteady os) arm_board-IsSteady))))

  -- An operation that moves the slot on when it succeeds, and is steady when it fails.
  pub record IsAdvance {A : Type 0} (m : Act W A) : Type 0 where
    pub moves :
        (b : Board W)
        → still (m b).1 ≡ (
            if is_done (m b).0
            then record (still b) { current_slot = (b.current_slot + 1) % 5 }
            else still b)

  continue-moves :
      {A C : Type 0} (r : Result A) (b' b : Board W) (k : A → Act W C)
      → still b' ≡ still b
      → ((a : A) → IsAdvance (k a))
      → still (continue r k b').1 ≡ (
          if is_done (continue r k b').0
          then record (still b) { current_slot = (b.current_slot + 1) % 5 }
          else still b)
  continue-moves (done a) b' b k e ak =
      (ak a).moves b'
      ∙ ap
          (λ s.
            if is_done (k a b').0 then record s { current_slot = (s.current_slot + 1) % 5 } else s)
          e
  continue-moves (failed x) b' b k e ak = e

  next_slot-IsAdvance : IsAdvance (next_slot {W = W} os)
  next_slot-IsAdvance = record { moves = λ b. refl }

  then-IsAdvance :
      {A C : Type 0} {m : Act W A} {k : A → Act W C}
      → IsSteady m
      → ((a : A) → IsAdvance (k a))
      → IsAdvance (m >>= k)
  then-IsAdvance {m = m} {k = k} sm ak = record {
    moves = λ b. continue-moves (m b).0 (m b).1 b k (sm.keeps b) ak;
  }

  when_valid-IsAdvance :
      {A : Type 0} (d : DeviceType) {m : Act W A} → IsAdvance m → IsAdvance (when_valid os d m)
  when_valid-IsAdvance d am = record {
    moves = λ b. elim (Bool-cases (device d b).handle_valid) [
      | inl v ↦ rw v (am.moves b)
      | inr v ↦ rw v refl
    ];
  }

  -- A command that the chip answered moves the slot on, cyclically over five slots; one that failed
  -- leaves it, and neither changes the counters, the flags or the handles.
  pub send_command-IsAdvance : (d : DeviceType) (id val : ℕ) → IsAdvance (send_command os d id val)
  unfolding send_command
  send_command-IsAdvance d id val = record {
    moves = λ b.
        (when_valid-IsAdvance d (
            then-IsAdvance (register_write-IsSteady os d _ _) (λ r.
              then-IsAdvance (register_write-IsSteady os d _ _) (λ r.
                then-IsAdvance (register_read-IsSteady os d _ 16)
                  (λ ack. next_slot-IsAdvance))))).moves
          b;
  }
