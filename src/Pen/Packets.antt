-- ===== src/Pen/Packets.antt =====
-- What the bridge sends, and how each of its packets is framed.
use ego_touch_rev.Prelude.{
  ℕ, zero, suc, ◌≤◌, ◌≡◌, refl, arith, List, [], ◌∷◌, ◌++◌, Bool, true, false, Option, none, some,
  length, get_or, All, if◌then◌else◌, ◌&&◌, ◌==◌, ltb,
}
use ego_touch_rev.Pen.{
  get_ack_code, take_bytes, drop_bytes, ack_packet, init_param_echo, pairing_packet, Wiring,
  send_raw_packet, send_ack, send_echo, send_pairing, answers,
}

length-take_bytes : (n : ℕ) (xs : List ℕ) → length (take_bytes n xs) ≤ n
unfolding take_bytes
length-take_bytes zero xs = omega arith
length-take_bytes (suc n) [] = omega arith
length-take_bytes (suc n) (x ∷ xs) = omega (length-take_bytes n xs, arith)

-- Bytes behind the report number 7 with a header of 8 bytes, in at most the 40 bytes of a report.
abbrev pub IsFramed : List ℕ → Type 0
IsFramed p = (get_or p 0 0 ≡ 7) × (8 ≤ length p) × (length p ≤ 40)

IsFramed-append :
    (xs ys : List (List ℕ)) → All IsFramed xs → All IsFramed ys → All IsFramed (xs ++ ys)
IsFramed-append [] ys h k = k
IsFramed-append (x ∷ xs) ys (h, hs) k = (h, IsFramed-append xs ys hs k)

IsFramed-if :
    (b : Bool) (xs : List (List ℕ)) → All IsFramed xs → All IsFramed (if b then xs else [])
IsFramed-if true xs h = h
IsFramed-if false xs h = tt

send_raw_packet-IsFramed :
    (w : Wiring) (p : List ℕ) → IsFramed p → All IsFramed (send_raw_packet w p)
send_raw_packet-IsFramed w p h = IsFramed-if w.transport_open (p ∷ []) (h, tt)

init_param_echo-IsFramed : (payload : List ℕ) → IsFramed (init_param_echo payload)
unfolding init_param_echo
init_param_echo-IsFramed payload = (refl, omega arith, omega (length-take_bytes 32 payload, arith))

send_ack-IsFramed : (w : Wiring) (code : Option ℕ) → All IsFramed (send_ack w code)
send_ack-IsFramed w none = tt
send_ack-IsFramed w (some code) =
    send_raw_packet-IsFramed w (ack_packet code) (refl, omega arith, omega arith)

send_echo-IsFramed : (w : Wiring) (packet : List ℕ) → All IsFramed (send_echo w packet)
unfolding send_echo
send_echo-IsFramed w packet =
    IsFramed-if ((get_or packet 5 0 == 0x7B) && ltb 8 (length packet))
      (send_raw_packet w (init_param_echo (drop_bytes 8 packet)))
      (send_raw_packet-IsFramed w (init_param_echo (drop_bytes 8 packet))
        (init_param_echo-IsFramed (drop_bytes 8 packet)))

send_pairing-IsFramed : (w : Wiring) (packet : List ℕ) → All IsFramed (send_pairing w packet)
unfolding send_pairing
send_pairing-IsFramed w packet =
    IsFramed-if (get_or packet 5 0 == 0x15) (send_raw_packet w pairing_packet)
      (send_raw_packet-IsFramed w pairing_packet (refl, omega arith, omega arith))

-- Every packet that answers an event, whatever the event holds, starts with the report number 7 and has
-- a header of 8 bytes and at most 40 bytes in all.
pub answers-IsFramed : (w : Wiring) (packet : List ℕ) → All IsFramed (answers w packet)
unfolding answers
answers-IsFramed w packet =
    IsFramed-append (send_ack w (get_ack_code (get_or packet 5 0)))
      (send_echo w packet ++ send_pairing w packet)
      (send_ack-IsFramed w (get_ack_code (get_or packet 5 0)))
      (IsFramed-append (send_echo w packet) (send_pairing w packet) (send_echo-IsFramed w packet)
        (send_pairing-IsFramed w packet))
