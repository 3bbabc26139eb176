-- ===== src/Pen.antt =====
-- PenEventBridge: EGoTouchService/Device/penevt/PenEventBridge.h and .cpp, the events of the pen's
-- Bluetooth MCU and the packets that answer them. `Pressure` has the pressure channel.
pub mod Pressure
pub mod Packets
mod Tests
use ego_touch_rev.Prelude.{
  ℕ, zero, suc, ◌+◌, ◌-◌, min, List, [], ◌∷◌, ◌++◌, Bool, true, false, ◌&&◌, ◌==◌, ltb, Option,
  none, some, if◌then◌else◌, length, get_or,
}

-- GetAckCode; `none` is -1.
unfoldable pub get_ack_code : ℕ → Option ℕ
get_ack_code event_code =
    if event_code == 0x6F
    then some 11
    else if event_code == 0x70
    then some 0
    else if event_code == 0x71
    then some 1
    else if event_code == 0x72
    then some 2
    else if event_code == 0x73
    then some 0xD
    else if event_code == 0x74
    then some 3
    else if event_code == 0x75
    then some 4
    else if event_code == 0x76
    then some 5
    else if event_code == 0x77
    then some 6
    else if event_code == 0x78
    then some 7
    else if event_code == 0x79
    then some 8
    else if event_code == 0x7B
    then some 0xA
    else if event_code == 0x7C
    then some 0xC
    else if event_code == 0x7F
    then some 9
    else if event_code == 0x2F
    then some 0xB
    else none

-- The first `n` bytes, and the bytes from `n` on.
pub take_bytes : ℕ → List ℕ → List ℕ
take_bytes zero xs = []
take_bytes (suc n) [] = []
take_bytes (suc n) (x ∷ xs) = x ∷ take_bytes n xs

pub drop_bytes : ℕ → List ℕ → List ℕ
drop_bytes zero xs = xs
drop_bytes (suc n) [] = []
drop_bytes (suc n) (x ∷ xs) = drop_bytes n xs

abbrev pub ack_packet : ℕ → List ℕ
ack_packet ack_code = 0x07 ∷ 0x01 ∷ 0x02 ∷ 0x00 ∷ 0x01 ∷ 0x80 ∷ 0x11 ∷ 0x00 ∷ ack_code ∷ []

-- SendInitParamEcho: at most 0x20 bytes are echoed.
unfoldable pub init_param_echo : List ℕ → List ℕ
unfolding take_bytes
init_param_echo payload =
    (0x07 ∷ 0x20 ∷ 0x01 ∷ 0x00 ∷ 0x01 ∷ 0x7D ∷ 0x11 ∷ 0x20 ∷ []) ++ take_bytes 0x20 payload

abbrev pub pairing_packet : List ℕ
pairing_packet = 0x07 ∷ 0x00 ∷ 0x02 ∷ 0x00 ∷ 0x01 ∷ 0x2E ∷ 0x11 ∷ 0x00 ∷ []

pub record PenEvent : Type 0 where
  pub code : ℕ
  pub payload : List ℕ

-- What the bridge is connected to: an open transport, a callback, an event handle.
pub record Wiring : Type 0 where
  pub transport_open : Bool
  pub has_callback : Bool
  pub has_notify_event : Bool

-- What one packet causes.
pub record Effects : Type 0 where
  pub sent : List (List ℕ)
  pub called_back : List PenEvent
  pub notified : Bool

-- `undefined` is the behaviour of a vector that is built from a range whose begin is behind its end.
pub data Outcome : Type 0 where
  undefined : Outcome
  done : Effects → Outcome

-- SendRawPacket: a packet goes nowhere when the transport is not open.
abbrev pub send_raw_packet : Wiring → List ℕ → List (List ℕ)
send_raw_packet w pkt = if w.transport_open then pkt ∷ [] else []

abbrev pub send_ack : Wiring → Option ℕ → List (List ℕ)
send_ack w none = []
send_ack w (some ack_code) = send_raw_packet w (ack_packet ack_code)

-- The echo of 0x7B, and the confirmation of 0x15.
unfoldable pub send_echo : Wiring → List ℕ → List (List ℕ)
unfolding init_param_echo drop_bytes
send_echo w packet =
    if (get_or packet 5 0 == 0x7B) && ltb 8 (length packet)
    then send_raw_packet w (init_param_echo (drop_bytes 8 packet))
    else []

unfoldable pub send_pairing : Wiring → List ℕ → List (List ℕ)
send_pairing w packet = if get_or packet 5 0 == 0x15 then send_raw_packet w pairing_packet else []

-- The packets that answer an event.
unfoldable pub answers : Wiring → List ℕ → List (List ℕ)
unfolding get_ack_code send_echo send_pairing
answers w packet =
    send_ack w (get_ack_code (get_or packet 5 0)) ++ (send_echo w packet ++ send_pairing w packet)

unfoldable pub on_packet_received : Wiring → List ℕ → Outcome
unfolding answers
on_packet_received w packet =
    if ltb (length packet) 7
    then done (record { sent = []; called_back = []; notified = false })
    else if w.has_callback && ltb (length packet) 8
    then undefined
    else done (record {
      sent = answers w packet;
      called_back =
          if w.has_callback
          then record { code = get_or packet 5 0; payload = drop_bytes 8 packet } ∷ []
          else [];
      notified = w.has_notify_event;
    })

-- RunHandshake
unfoldable pub run_handshake : Wiring → List (List ℕ)
run_handshake w =
    if w.transport_open
    then ((0x07 ∷ 0x00 ∷ 0x02 ∷ 0x00 ∷ 0x01 ∷ 0x71 ∷ 0x11 ∷ 0x00 ∷ [])
        ∷ (0x07 ∷ 0x00 ∷ 0x02 ∷ 0x00 ∷ 0x01 ∷ 0x77 ∷ 0x11 ∷ 0x00 ∷ [])
        ∷ [])
    else []
