-- ===== src/Himax/Connection.antt =====
-- What stays behind a HoldReset and a Deinit.
use ego_touch_rev.Prelude.{ℕ, ◌≡◌, refl, arith, Bool}
use ego_touch_rev.Afe.{
  AfeCommand, unexpected, invalid_operation, Afe, unconnected, afe_send_command,
}
use ego_touch_rev.Afe.Guards.{command_needs_connection}
use ego_touch_rev.Himax.{Board}
use ego_touch_rev.Himax.Hal.{Os}
use ego_touch_rev.Himax.Init.{bus_port, deinit, destroy, hold_reset}

module _ {W : Type 0} (os : Os W) where
  pub hold_reset-disconnects : (a : Afe (Board W)) → (hold_reset os a).conn_state ≡ unconnected
  unfolding hold_reset
  hold_reset-disconnects a = refl

  pub deinit-disconnects :
      (check_en : Bool) (a : Afe (Board W)) → (deinit os check_en a).conn_state ≡ unconnected
  unfolding deinit
  deinit-disconnects check_en a = refl

  -- After HoldReset or Deinit every command fails with InvalidOperation and reaches neither the bus nor
  -- any part of the chip, whatever the system answered to their own requests.
  pub no_command_after_reset :
      (c : AfeCommand) (param : ℕ) (check_en : Bool) (a : Afe (Board W))
      → (afe_send_command (bus_port os) c param (hold_reset os a)
          ≡ (unexpected invalid_operation, hold_reset os a))
        × (afe_send_command (bus_port os) c param (deinit os check_en a)
            ≡ (unexpected invalid_operation, deinit os check_en a))
  unfolding hold_reset deinit
  no_command_after_reset c param check_en a = (
    command_needs_connection (bus_port os) c param (hold_reset os a) refl,
    command_needs_connection (bus_port os) c param (deinit os check_en a) refl,
  )

  -- A chip that is destroyed is not connected.
  pub destroy-disconnects : (a : Afe (Board W)) → (destroy os a).conn_state ≡ unconnected
  unfolding destroy deinit
  destroy-disconnects a = ground arith
