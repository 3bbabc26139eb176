-- ===== src/Himax/Protocol.antt =====
-- HimaxProtocol: registers over the bus, verified writes, and the command packets with their slots.
use ego_touch_rev.Prelude.{
  ℕ, ◌+◌, ◌-◌, ◌*◌, ◌/◌, ◌%◌, ◌^◌, List, [], ◌∷◌, ◌++◌, Bool, true, false, ◌&&◌, ltb, leb, ◌==◌,
  if◌then◌else◌, length, get_or, take, min,
}
use ego_touch_rev.Afe.{communication_error, invalid_operation, verification_failed}
use ego_touch_rev.Himax.{DeviceType, done, failed, Act, pure, fail, ◌>>=◌, ◌>>◌, device}
use ego_touch_rev.Himax.Registers.{le32}
use ego_touch_rev.Himax.Hal.{Os, read_bus, write_bus}

-- Equal lists of bytes: std::equal on two ranges of one length.
unfoldable pub bytes_equal : List ℕ → List ℕ → Bool
bytes_equal [] [] = true
bytes_equal (x ∷ xs) (y ∷ ys) = (x == y) && bytes_equal xs ys
bytes_equal [] (y ∷ ys) = false
bytes_equal (x ∷ xs) [] = false

-- The sum of the 16-bit little-endian words of the packet.
unfoldable pub word_sum : List ℕ → ℕ
word_sum (lo ∷ hi ∷ rest) = (lo + 256 * hi) + word_sum rest
word_sum (lo ∷ []) = 0
word_sum [] = 0

-- The packet with its virtual header and before its checksum.
abbrev pub with_header : ℕ → ℕ → ℕ → ℕ → List ℕ
with_header h0 h1 cmd_id cmd_val =
    h0 ∷ h1 ∷ cmd_id ∷ 0 ∷ cmd_val ∷ 0 ∷ 0 ∷ 0 ∷ 0 ∷ 0 ∷ 0 ∷ 0 ∷ 0 ∷ 0 ∷ []

-- `0x10000 - checksum_sum` on `uint32`, cut to 16 bits.
unfoldable pub checksum : ℕ → ℕ → ℕ
unfolding word_sum
checksum cmd_id cmd_val =
    ((0x10000 + 2 ^ 32 - word_sum (with_header 0xA8 0x8A cmd_id cmd_val ++ (0 ∷ 0 ∷ []))) % 2 ^ 32)
    % 65536

unfoldable pub build_command_packet : ℕ → ℕ → List ℕ
unfolding checksum
build_command_packet cmd_id cmd_val =
    let c = checksum cmd_id cmd_val in
    with_header 0 0 cmd_id cmd_val ++ (c % 256 ∷ c / 256 % 256 ∷ [])

-- The first `cmp_len` bytes are compared: two of them by default.
abbrev pub compare_length : ℕ → ℕ → ℕ
compare_length len verify_len =
    min (if verify_len == 0 then (if leb 2 len then 2 else len) else verify_len) len

abbrev pub slot_address : ℕ → ℕ
slot_address slot = 0x10007550 + slot * 0x10

module _ {W : Type 0} (os : Os W) where
  -- The guard at the head of every operation.
  abbrev pub when_valid : {A : Type 0} → DeviceType → Act W A → Act W A
  when_valid d m b = if (device d b).handle_valid then m b else (failed communication_error, b)

  unfoldable pub burst_enable : DeviceType → Bool → Act W (Unit {0})
  burst_enable d enable = when_valid d (do
    write_bus os d 0x13 [] (0x31 ∷ [])
    write_bus os d 0x0D [] ((if enable then 0x13 else 0x12) ∷ []))

  unfoldable pub register_read : DeviceType → ℕ → ℕ → Act W (List ℕ)
  unfolding burst_enable
  register_read d addr len = when_valid d (
      if ltb 256 len then fail invalid_operation else (do
        burst_enable d (ltb 4 len)
        write_bus os d 0x00 (le32 addr) []
        write_bus os d 0x0C [] (0 ∷ [])
        read_bus os d 0x08 len))

  unfoldable pub register_write : DeviceType → ℕ → List ℕ → Act W (Unit {0})
  unfolding burst_enable
  register_write d addr bytes =
      when_valid d (do burst_enable d (ltb 4 (length bytes)); write_bus os d 0x00 (le32 addr) bytes)

  unfoldable pub write_and_verify : DeviceType → ℕ → List ℕ → ℕ → Act W (Unit {0})
  unfolding bytes_equal
  write_and_verify d addr bytes verify_len = when_valid d (do
    register_write d addr bytes
    back ← register_read d addr (length bytes)
    let n = compare_length (length bytes) verify_len
    if bytes_equal (take n bytes) (take n back) then pure tt else fail verification_failed)

  unfoldable pub safe_mode_set_raw : DeviceType → Bool → Act W (Unit {0})
  safe_mode_set_raw d state =
      let lo = if state then 0x27 else 0x00 in
      let hi = if state then 0x95 else 0x00 in
      when_valid d (do
        write_bus os d 0x31 [] (lo ∷ hi ∷ [])
        back ← read_bus os d 0x31 2
        (if (get_or back 0 0 == lo) && (get_or back 1 0 == hi)
            then pure tt
            else fail verification_failed))

  -- The slot moves on after the whole exchange only.
  abbrev pub next_slot : Act W (Unit {0})
  next_slot b = (done tt, record b { current_slot = (b.current_slot + 1) % 5 })

  unfoldable pub send_command : DeviceType → ℕ → ℕ → Act W (Unit {0})
  unfolding build_command_packet
  send_command d cmd_id cmd_val b =
      let addr = slot_address b.current_slot in
      when_valid d
        (do
          register_write d addr (build_command_packet cmd_id cmd_val)
          register_write d addr (0xA8 ∷ 0x8A ∷ cmd_id ∷ 0 ∷ [])
          ack ← register_read d addr 16
          next_slot)
        b
