-- ===== src/Pen/Tests.antt =====
-- Packets of the MCU, and the theorems at them.
use ego_touch_rev.Prelude.{ℕ, ◌≡◌, List, [], ◌∷◌, true, false, replicate}
use ego_touch_rev.Pen.{Wiring}
use ego_touch_rev.Pen.Pressure
use ego_touch_rev.Pen.Pressure.{PenPressureStats, Reader, encode, report_roundtrip}

abbrev wired : Wiring
wired = record { transport_open = true; has_callback = true; has_notify_event = false }

-- PEN_REP_PARAM with a payload of 50 bytes.
abbrev init_param : List ℕ
init_param = 0x07 ∷ 0 ∷ 2 ∷ 0 ∷ 1 ∷ 0x7B ∷ 0x11 ∷ 0 ∷ replicate 50 9

abbrev seven_bytes : List ℕ
seven_bytes = 0x07 ∷ 0 ∷ 2 ∷ 0 ∷ 1 ∷ 0x71 ∷ 0x11 ∷ []

abbrev untouched : Reader
untouched = record {
  stats = record { report_type = 0; freq1 = 0; freq2 = 0; press = (0, 0, 0, 0) };
  reported = [];
}

report_roundtrip_example :
    Pressure.on_packet_received (encode 3 4 (0x1234, 1, 2, 65535) (1 ∷ [])) untouched ≡ record {
      stats = record { report_type = 0x55; freq1 = 3; freq2 = 4; press = (0x1234, 1, 2, 65535) };
      reported = 0x1234 ∷ [];
    }
report_roundtrip_example = report_roundtrip 3 4 0x1234 1 2 65535 (1 ∷ []) untouched
