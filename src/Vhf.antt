-- ===== src/Vhf.antt =====
-- VhfReporter: EGoTouchService/Device/vhf/VhfReporter.h and .cpp, the reports that the injector driver
-- gets, with the packets of Engine/EngineTypes.h. `Device` has the handle and the writes. Floating-point
-- arithmetic and the device calls of the system are parameters.
pub mod Device
pub mod Shape
pub mod Layout
pub mod Silence
mod Tests
use Prim.Native.Nat.{bit_and, bit_or}
use ego_touch_rev.Prelude.{
  ℕ, zero, suc, ◌+◌, ◌-◌, ◌*◌, ◌/◌, ◌%◌, List, [], ◌∷◌, Bool, true, false, not, ◌||◌, ◌&&◌, ltb,
  leb, ◌==◌, if◌then◌else◌, length, set, get_or, replicate, take, min,
}
use ego_touch_rev.Prelude.Int.{ℤ, pos, negsuc}
use ego_touch_rev.Engine.{TouchContact}

-- What the reports compute on `float`: a number, the quotient, the product, `<` and `lround`.
pub record Scale (F : Type 0) : Type 0 where
  pub number : ℕ → F
  pub div_f : F → F → F
  pub mul_f : F → F → F
  pub lt_f : F → F → Bool
  pub lround : F → ℤ

-- TouchPacket and StylusPacket without the report id, which is never sent.
pub record Packet : Type 0 where
  pub valid : Bool
  pub length : ℕ
  pub bytes : List ℕ

-- WriteU16Le
abbrev pub write_u16 : List ℕ → ℕ → ℕ → List ℕ
write_u16 bytes offset value = set (set bytes offset (value % 256)) (offset + 1) (value / 256 % 256)

-- `std::clamp(v, 0, hi)` on `int`, for a `hi` that is not negative.
unfoldable pub clamp : ℕ → ℤ → ℕ
clamp hi (pos n) = if ltb hi n then hi else n
clamp hi (negsuc n) = 0

-- `c.reportEvent == TouchReportUp`: the tip switch is bit 0, the confidence bit 1.
abbrev pub is_up : ℤ → Bool
is_up (pos n) = n == 0x20
is_up (negsuc n) = false

unfoldable pub encode_contact_state : {F : Type 0} → TouchContact F → ℕ
encode_contact_state c = if is_up c.report_event then 0x02 else 0x03

-- `c.id <= 0 || !c.isReported` leaves a contact out.
abbrev pub has_id : ℤ → Bool
has_id (pos n) = not (n == 0)
has_id (negsuc n) = false

unfoldable pub reportable : {F : Type 0} → List (TouchContact F) → List (TouchContact F)
reportable [] = []
reportable (c ∷ cs) = if has_id c.id && c.is_reported then c ∷ reportable cs else reportable cs

-- ApplyStylusPostTransform on byte 1 of the packet: the inverted and eraser bits for an eraser.
unfoldable pub post_transform : ℕ → ℕ → ℕ
post_transform eraser_state b =
    if eraser_state == 1 then bit_or (bit_and b 0xFE) 0x0C else bit_and b 0xF3

abbrev pub apply_stylus_post_transform : ℕ → List ℕ → List ℕ
apply_stylus_post_transform eraser_state bytes =
    set bytes 1 (post_transform eraser_state (get_or bytes 1 0))

abbrev pub empty_packet : Packet
empty_packet = record { valid = false; length = 0x20; bytes = 0x01 ∷ replicate 31 0 }

module _ {F : Type 0} (fs : Scale F) where
  -- `std::clamp(v, 0.0f, 1.0f)`
  abbrev pub clamp_unit : F → F
  clamp_unit v =
      if fs.lt_f v (fs.number 0)
      then fs.number 0
      else (if fs.lt_f (fs.number 1) v then fs.number 1 else v)

  -- The result is cut to 16 bits.
  unfoldable pub to_vhf : F → ℕ → ℕ → Bool → ℕ
  unfolding clamp
  to_vhf grid_value grid_max logical_max invert =
      let norm = clamp_unit (fs.div_f grid_value (fs.number grid_max)) in
      let vhf = clamp logical_max (fs.lround (fs.mul_f norm (fs.number logical_max))) in
      (if invert then logical_max - vhf else vhf) % 65536

  -- The body of the loop of BuildTouchReports, at a slot of one packet.
  abbrev pub write_contact : Bool → TouchContact F → ℕ → List ℕ → List ℕ
  write_contact flip c slot bytes =
      let base = 1 + slot * 6 in
      let tagged = set (set bytes base (encode_contact_state c)) (base + 1) (clamp 255 c.id) in
      write_u16 (write_u16 tagged (base + 2) (to_vhf c.y 40 16000 flip)) (base + 4)
        (to_vhf c.x 60 25600 (not flip))

  -- The loop from contact `i` on.
  unfoldable pub write_contacts :
      Bool → ℕ → List (TouchContact F) → List ℕ × List ℕ → List ℕ × List ℕ
  write_contacts flip i [] packets = packets
  write_contacts flip i (c ∷ cs) (first, second) = write_contacts flip (i + 1) cs (
      if ltb i 5
      then (write_contact flip c i first, second)
      else (first, write_contact flip c (i - 5) second))

  unfoldable pub build_touch_reports : Bool → List (TouchContact F) → Packet × Packet
  unfolding write_contacts reportable
  build_touch_reports flip contacts =
      let shown = reportable contacts in
      let count = min 10 (length shown) in
      let (first, second) =
        write_contacts flip 0 (take count shown)
          (set empty_packet.bytes 31 (count % 256), empty_packet.bytes) in
      (
        record { valid = ltb 0 count; length = 0x20; bytes = first },
        record { valid = ltb 5 count; length = 0x20; bytes = second },
      )
