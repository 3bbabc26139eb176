-- ===== src/Himax.antt =====
-- The chip under the controller: EGoTouchService/Device/himax. `Hal` is HalDevice, the calls of the
-- operating system on one device; `Protocol` the registers and command packets over it; `Sense`,
-- `Init` and `Frame` are HimaxChip.cpp. Here are the state and the monad that they share.
pub mod Registers
pub mod Hal
pub mod Protocol
pub mod Sense
pub mod Init
pub mod Frame
pub mod Packet
pub mod Steady
pub mod Connection
pub mod Interleave
pub mod Counters
pub mod Slots
pub mod Service
mod Tests
use ego_touch_rev.Prelude.{ℕ, List, Bool, Option, none, some}
use ego_touch_rev.Afe.{ChipError, ChipResult, ok, unexpected, Afe}

pub data DeviceType : Type 0 where
  master slave interrupt : DeviceType

-- HalDevice. `m_xfer_buffer` is scratch space, and `m_type` shows in the two codes only.
pub record HalDevice : Type 0 where
  pub handle_valid : Bool
  pub last_error : ℕ
  pub read_op : ℕ
  pub write_op : ℕ

-- The members of Chip that the controller does not own; `world` is what stands behind the handles.
-- The controller's part, with the connection state and the frame buffer, is `Afe (Board W)`.
pub record Board (W : Type 0) : Type 0 where
  pub master_device : HalDevice
  pub slave_device : HalDevice
  pub interrupt_device : HalDevice
  pub current_slot : ℕ
  pub frame_count : ℕ  -- uint32
  pub zero_frame_count : ℕ  -- uint32
  pub stylus_active : Bool
  pub last_master_was_read : Bool
  pub world : W

-- ChipResult<T>
pub data Result (A : Type 0) : Type 0 where
  done : A → Result A
  failed : ChipError → Result A

abbrev pub is_done : {A : Type 0} → Result A → Bool
is_done (done a) = Bool.true
is_done (failed e) = Bool.false

abbrev pub chip_result : {A : Type 0} → Result A → ChipResult
chip_result (done a) = ok
chip_result (failed e) = unexpected e

-- An operation on the board: its state stays written when it fails.
abbrev pub Act : Type 0 → Type 0 → Type 0
Act W A = Board W → Result A × Board W

module _ {W : Type 0} where
  abbrev pub pure : {A : Type 0} → A → Act W A
  pure a b = (done a, b)

  abbrev pub fail : {A : Type 0} → ChipError → Act W A
  fail e b = (failed e, b)

  abbrev pub continue : {A C : Type 0} → Result A → (A → Act W C) → Act W C
  continue (done a) k b = k a b
  continue (failed e) k b = (failed e, b)

  infixl 5 ◌>>=◌ ◌>>◌
  abbrev pub ◌>>=◌ : {A C : Type 0} → Act W A → (A → Act W C) → Act W C
  ◌>>=◌ m k b = let (r, b') = m b in continue r k b'

  abbrev pub ◌>>◌ : {A C : Type 0} → Act W A → Act W C → Act W C
  m >> k = m >>= λ a. k

  -- The result of an operation that may fail, as a value.
  abbrev pub attempt : {A : Type 0} → Act W A → Act W (Result A)
  attempt m b = let (r, b') = m b in (done r, b')

  abbrev pub device : DeviceType → Board W → HalDevice
  device master b = b.master_device
  device slave b = b.slave_device
  device interrupt b = b.interrupt_device

  -- A write of `m_lastError`.
  abbrev pub set_error : DeviceType → ℕ → Board W → Board W
  set_error master e b = record b { master_device = record (b.master_device) { last_error = e } }
  set_error slave e b = record b { slave_device = record (b.slave_device) { last_error = e } }
  set_error interrupt e b = record b {
    interrupt_device = record (b.interrupt_device) { last_error = e };
  }

  -- An operation on the board as one on the whole chip.
  abbrev pub on_board : {A : Type 0} → Act W A → Afe (Board W) → Result A × Afe (Board W)
  on_board m c = let (r, b) = m c.bus in (r, record c { bus = b })
