-- ===== src/Vhf/Silence.antt =====
-- When the touch half of the reporter writes: the lift of all contacts behind the last touch, once.
use ego_touch_rev.Prelude.{◌≡◌}
use ego_touch_rev.Vhf.Device.{Reporter}

-- What the device calls leave alone.
pub record SameFlags {W : Type 0} (r r' : Reporter W) : Type 0 where
  pub enabled : r'.enabled ≡ r.enabled
  pub transpose : r'.transpose ≡ r.transpose
  pub had : r'.had_touch_last_frame ≡ r.had_touch_last_frame
  pub eraser : r'.eraser_state ≡ r.eraser_state
