-- ===== src/Himax/Packet.antt =====
-- The command packets of HimaxProtocol::build_command_packet, and the memory that send_command's two
-- writes leave in a slot.
use ego_touch_rev.Prelude.{ℕ, ◌+◌, ◌%◌, ◌<◌, ◌≡◌, arith, List, [], ◌∷◌, ◌++◌, length, drop, All}
use ego_touch_rev.Himax.Protocol.{word_sum, checksum, build_command_packet}

-- What the slot holds after both writes: the header over the head of the packet.
unfoldable pub slot_content : ℕ → ℕ → List ℕ
unfolding build_command_packet
slot_content cmd_id cmd_val =
    (0xA8 ∷ 0x8A ∷ cmd_id ∷ 0 ∷ []) ++ drop 4 (build_command_packet cmd_id cmd_val)

checksum-eq : (id val : ℕ) → id < 256 → val < 256 → checksum id val + (35496 + id + val) ≡ 65536
unfolding checksum word_sum
checksum-eq id val i v = omega arith

-- The memory of a slot after the two writes of a command: sixteen bytes whose 16-bit words add up to 0
-- modulo 65536, for a command and a value that are bytes.
pub slot_content_sums_to_zero :
    (id val : ℕ)
    → id < 256
    → val < 256
    → (length (slot_content id val) ≡ 16)
      × All (λ byte. byte < 256) (slot_content id val)
      × (word_sum (slot_content id val) % 65536 ≡ 0)
unfolding slot_content build_command_packet word_sum
slot_content_sums_to_zero id val i v = let e = checksum-eq id val i v in ground arith
