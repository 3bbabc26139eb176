-- ===== src/Afe/Bus.antt =====
-- What the commands do with their bus: they reach it through the port alone.
use ego_touch_rev.Prelude.{ℕ, ◌≡◌, arith, Bool, true}
use ego_touch_rev.Afe.{
  AfeCommand, BusPort, Afe, afe_send_command, afe_enter_idle, afe_force_exit_idle,
  afe_start_calibration, afe_enable_freq_shift, afe_disable_freq_shift, afe_clear_status,
  afe_force_to_freq_point, afe_force_to_scan_rate, afe_init_stylus, afe_set_stylus_id,
  afe_disconnect_stylus, notify_touch_wakeup,
}

-- What a command may change of the controller: the frame buffer and the connection stay.
pub record Follows {B : Type 0} (P : B → Type 0) (a a' : Afe B) : Type 0 where
  pub buffer : a'.frame_buffer ≡ a.frame_buffer
  pub conn : a'.conn_state ≡ a.conn_state
  pub bus : P a.bus → P a'.bus

-- A property of the bus that both of the port's operations keep.
pub record PortKeeps {B : Type 0} (P : B → Type 0) (port : BusPort B) : Type 0 where
  pub send_keeps : (op value : ℕ) (b : B) → P b → P (port.send_command op value b).1
  pub policy_keeps :
      (block : Bool) (ms : ℕ) (b : B) → P b → P (port.set_frame_read_policy block ms b).1

module _ {B : Type 0} {P : B → Type 0} {port : BusPort B} (keeps : PortKeeps P port) where
  pub enter_idle-Follows : (param : ℕ) (a : Afe B) → Follows P a (afe_enter_idle port param a).1
  unfolding afe_enter_idle
  enter_idle-Follows param a = ground (
    arith,
    keeps.send_keeps 0x0a param a.bus,
    keeps.policy_keeps true 200 (port.send_command 0x0a param a.bus).1,
  )

  pub wakeup-Follows : (a : Afe B) → Follows P a (notify_touch_wakeup port a).1
  unfolding notify_touch_wakeup
  wakeup-Follows a = ground (arith, keeps.policy_keeps true 100 a.bus)

  pub start_calibration-Follows :
      (param : ℕ) (a : Afe B) → Follows P a (afe_start_calibration port param a).1
  unfolding afe_start_calibration
  start_calibration-Follows param a = ground (arith, keeps.send_keeps 0x01 param a.bus)

  pub scan_rate-Follows :
      (param : ℕ) (a : Afe B) → Follows P a (afe_force_to_scan_rate port param a).1
  unfolding afe_force_to_scan_rate
  scan_rate-Follows param a = ground (arith, keeps.send_keeps 0x0e param a.bus)

  -- Every command leaves the frame buffer and the connection alone, and keeps what the port keeps.
  pub command-Follows :
      (c : AfeCommand) (param : ℕ) (a : Afe B) → Follows P a (afe_send_command port c param a).1
  unfolding afe_send_command afe_force_exit_idle afe_enable_freq_shift afe_disable_freq_shift
      afe_clear_status afe_force_to_freq_point afe_init_stylus afe_set_stylus_id
      afe_disconnect_stylus
  command-Follows c param a = ground (
    arith,
    enter_idle-Follows param a,
    wakeup-Follows a,
    start_calibration-Follows param a,
    scan_rate-Follows param a,
    keeps.send_keeps 0x0d 0x00 a.bus,
    keeps.send_keeps 0x02 0x00 a.bus,
    keeps.send_keeps 0x0c param a.bus,
  )
