-- ===== src/Afe/Guards.antt =====
-- The commands: without a connection they do nothing, and they keep the stylus state well formed.
use ego_touch_rev.Prelude.{ℕ, ◌≤◌, ◌≡◌, ◌⊎◌, arith, true, false}
use ego_touch_rev.Afe.{
  ok, unexpected, invalid_operation, AfeCommand, disable_freq_shift, init_stylus, disconnect_stylus,
  StylusState, new_stylus, BusPort, Afe, is_connected_state, afe_send_command, afe_enter_idle,
  afe_force_exit_idle, afe_start_calibration, afe_enable_freq_shift, afe_disable_freq_shift,
  afe_clear_status, afe_force_to_freq_point, afe_force_to_scan_rate, afe_init_stylus,
  afe_set_stylus_id, afe_disconnect_stylus, notify_touch_wakeup,
}

-- The frequency indices are 0 or 1, the policy is off or AUTO, and a request waits only while a pen
-- is connected.
pub record IsValid (s : StylusState) : Type 0 where
  pub index : s.freq_idx ≤ 1
  pub target : s.switch_target_idx ≤ 1
  pub policy : (s.switch_policy ≡ 0) ⊎ (s.switch_policy ≡ 2)
  pub waiting : s.switch_req_pending ≡ true → s.is_connected ≡ true

pub new_stylus-IsValid : IsValid new_stylus
new_stylus-IsValid = ground arith

module _ {B : Type 0} (port : BusPort B) where
  -- Without a connection every command fails with InvalidOperation, touches neither the bus nor the
  -- stylus, and leaves the controller as it was.
  pub command_needs_connection :
      (c : AfeCommand) (param : ℕ) (a : Afe B)
      → is_connected_state a.conn_state ≡ false
      → afe_send_command port c param a ≡ (unexpected invalid_operation, a)
  unfolding afe_send_command afe_enter_idle afe_force_exit_idle afe_start_calibration
      afe_enable_freq_shift afe_disable_freq_shift afe_clear_status afe_force_to_freq_point
      afe_force_to_scan_rate afe_init_stylus afe_set_stylus_id afe_disconnect_stylus
      notify_touch_wakeup
  command_needs_connection c param a h = ground arith

  pub command-IsValid :
      (c : AfeCommand) (param : ℕ) (a : Afe B)
      → IsValid a.stylus
      → IsValid (afe_send_command port c param a).1.stylus
  unfolding afe_send_command afe_enter_idle afe_force_exit_idle afe_start_calibration
      afe_enable_freq_shift afe_disable_freq_shift afe_clear_status afe_force_to_freq_point
      afe_force_to_scan_rate afe_init_stylus afe_set_stylus_id afe_disconnect_stylus
      notify_touch_wakeup
  command-IsValid c param a v = ground arith

  -- After a successful InitStylus the controller is in AUTO mode, and then neither DisableFreqShift
  -- nor DisconnectStylus reaches the bus: both succeed and leave it unchanged, so that the frequency
  -- shift that InitStylus enabled stays enabled on the chip.
  pub shift_stays_enabled :
      (pen param : ℕ) (a a1 : Afe B)
      → afe_send_command port init_stylus pen a ≡ (ok, a1)
      → (afe_send_command port disable_freq_shift param a1 ≡ (ok, a1))
        × (afe_send_command port disconnect_stylus param a1
            ≡ (ok, record a1 { stylus = new_stylus }))
  unfolding afe_send_command afe_enable_freq_shift afe_disable_freq_shift afe_init_stylus
      afe_disconnect_stylus
  shift_stays_enabled pen param a a1 h = ground arith
