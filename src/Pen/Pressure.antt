-- ===== src/Pen/Pressure.antt =====
-- PenPressureReader: EGoTouchService/Device/penpress/PenPressureReader.cpp, the reports of the pen's
-- pressure and frequencies.
use ego_touch_rev.Prelude.{
  ℕ, ◌+◌, ◌*◌, ◌/◌, ◌%◌, ◌≡◌, refl, arith, List, [], ◌∷◌, ◌++◌, true, ◌&&◌, ◌==◌, leb,
  if◌then◌else◌, length, get_or,
}

-- PenPressureStats
pub record PenPressureStats : Type 0 where
  pub report_type : ℕ
  pub freq1 : ℕ
  pub freq2 : ℕ
  pub press : ℕ × ℕ × ℕ × ℕ

-- The reader's state: the last statistics, and the pressures that its callback was given.
pub record Reader : Type 0 where
  pub stats : PenPressureStats
  pub reported : List ℕ

-- The word `k` of a report.
abbrev pub press_at : List ℕ → ℕ → ℕ
press_at packet k = get_or packet (3 + k * 2) 0 + 256 * get_or packet (4 + k * 2) 0

unfoldable pub decode : List ℕ → PenPressureStats
decode packet = record {
  report_type = get_or packet 0 0;
  freq1 = get_or packet 1 0;
  freq2 = get_or packet 2 0;
  press = (press_at packet 0, press_at packet 1, press_at packet 2, press_at packet 3);
}

-- OnPacketReceived, with a callback set.
unfoldable pub on_packet_received : List ℕ → Reader → Reader
unfolding decode
on_packet_received packet r =
    if leb 11 (length packet) && (get_or packet 0 0 == 0x55)
    then (let s = decode packet in record { stats = s; reported = r.reported ++ s.press.0 ∷ [] })
    else r

-- A report as the MCU lays it out: the letter U, the frequencies, four little-endian words, and what
-- follows them.
abbrev pub encode : ℕ → ℕ → ℕ × ℕ × ℕ × ℕ → List ℕ → List ℕ
encode freq1 freq2 (p0, p1, p2, p3) rest =
    0x55
    ∷ freq1
    ∷ freq2
    ∷ p0 % 256
    ∷ p0 / 256
    ∷ p1 % 256
    ∷ p1 / 256
    ∷ p2 % 256
    ∷ p2 / 256
    ∷ p3 % 256
    ∷ p3 / 256
    ∷ rest

word-join : (p : ℕ) → p % 256 + 256 * (p / 256) ≡ p
word-join p = omega arith

long-enough :
    (freq1 freq2 p0 p1 p2 p3 : ℕ) (rest : List ℕ)
    → leb 11 (length (encode freq1 freq2 (p0, p1, p2, p3) rest)) ≡ true
long-enough freq1 freq2 p0 p1 p2 p3 rest = ground arith

-- A report that is laid out so is read back: the statistics are its frequencies and its four
-- pressures, whatever bytes follow, and the callback is given the first pressure.
pub report_roundtrip :
    (freq1 freq2 p0 p1 p2 p3 : ℕ) (rest : List ℕ) (r : Reader)
    → on_packet_received (encode freq1 freq2 (p0, p1, p2, p3) rest) r ≡ record {
      stats = record { report_type = 0x55; freq1 = freq1; freq2 = freq2; press = (p0, p1, p2, p3) };
      reported = r.reported ++ p0 ∷ [];
    }
unfolding on_packet_received
report_roundtrip freq1 freq2 p0 p1 p2 p3 rest r =
    rw
      (
        word-join p0,
        word-join p1,
        word-join p2,
        word-join p3,
        long-enough freq1 freq2 p0 p1 p2 p3 rest,
      )
      refl
