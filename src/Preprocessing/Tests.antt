-- ===== src/Preprocessing/Tests.antt =====
-- The filters on small matrices, and the theorems at them.
use ego_touch_rev.Prelude.{
  ℕ, zero, suc, ◌+◌, ◌*◌, ◌/◌, ◌<◌, ◌≡◌, refl, arith, List, [], ◌∷◌, true, false, ◌==◌, ltb, some,
  replicate, get_or, if◌then◌else◌,
}
use ego_touch_rev.Prelude.Int.{ℤ, pos, negsuc, ◌+ℤ◌, ◌-ℤ◌, ◌≤ℤ◌, ltb_ℤ, wrap16}
use ego_touch_rev.Engine.{Heat}
use ego_touch_rev.Preprocessing.Parser.{parse_master, frame_bytes, master_frame_roundtrip}
use ego_touch_rev.Preprocessing.Cmf.{
  default_cmf, is_background, correct_line, common_mode_is_removed,
}
use ego_touch_rev.Preprocessing.Gaussian.{Between, process_gaussian, smoothing_stays_between}
use ego_touch_rev.Preprocessing.Iir.{IirSettings, Decays, iir_history, silent_cell_fades, max_ℤ}
use ego_touch_rev.Preprocessing.Conditioning.{cut_floor, cut_floor_lem}

abbrev slope : Heat
slope r c = pos (60 * r + c)

abbrev flat : Heat
flat r c = pos 3

abbrev seven_bytes : List ℕ
seven_bytes = replicate 7 0xA5

master_frame_roundtrip_example :
    parse_master true (frame_bytes seven_bytes slope (replicate 263 0)) flat 3 5 ≡ pos 185
master_frame_roundtrip_example =
    master_frame_roundtrip seven_bytes (replicate 263 0) slope flat 3 5 refl (omega arith)
      (omega arith) (omega arith) (omega arith)

all_zero : (n k : ℕ) → get_or {A = ℕ} (replicate n 0) k 0 ≡ 0
all_zero zero k = refl
all_zero (suc n) zero = refl
all_zero (suc n) (suc k) = all_zero n k

-- A line at 40 with a finger on it.
abbrev touched : ℕ → ℤ
touched x = if x == 2 then pos 900 else pos 40

level : (x : ℕ) → x < 5 → is_background default_cmf (touched x) ≡ true → touched x ≡ pos 40
unfolding ◌-ℤ◌
level x h b = ground arith

background_at_40 : is_background default_cmf (pos 40) ≡ true
unfolding ◌-ℤ◌
background_at_40 = refl

above_minus_500 : pos 0 -ℤ pos 500 ≤ℤ pos 40
unfolding ◌-ℤ◌
above_minus_500 = omega arith

common_mode_is_removed_example :
    correct_line default_cmf 5 touched 2
    ≡ (if is_background default_cmf (pos 900) then pos 0 else wrap16 (pos 900 -ℤ pos 40))
common_mode_is_removed_example =
    common_mode_is_removed default_cmf 500 refl (omega arith) touched 5 2 0 (pos 40) level
      (omega arith) background_at_40 (omega arith) above_minus_500 (omega arith) (omega arith)

corrected : correct_line default_cmf 5 touched 2 ≡ pos 860
unfolding correct_line ◌-ℤ◌ ◌+ℤ◌
corrected = refl

near_flat : Between flat 3 4 (pos 3) (pos 3)
near_flat r c a b d e = (omega arith, omega arith)

smoothing_stays_between_example :
    (pos 3 ≤ℤ process_gaussian true (pos 20) flat 3 4)
    × (process_gaussian true (pos 20) flat 3 4 ≤ℤ pos 3)
smoothing_stays_between_example =
    smoothing_stays_between 20 flat 3 4 (pos 3) (pos 3) (omega arith) (omega arith) (omega arith)
      (omega arith) (omega arith) (omega arith) (omega arith) near_flat

-- The defaults, with a gate that keeps a tenth of a positive maximum.
abbrev tenth : ℤ → ℤ
tenth (pos n) = if ltb n 32768 then pos (n / 10) else pos 0
tenth (negsuc n) = pos 0

abbrev default_iir : IirSettings
default_iir = record {
  enabled = true;
  gate = tenth;
  gate_static_floor = pos 200;
  decay_weight = pos 200;
  decay_step = pos 80;
  noise_floor_cutoff = pos 5;
  residual_enabled = false;
  residue = λ v. pos 0;
}

tenth_bound : (v : ℤ) → tenth v ≤ℤ pos 32767
tenth_bound (pos n) = ground arith
tenth_bound (negsuc n) = omega arith

default_iir-Decays : Decays default_iir 200 80 200
default_iir-Decays = record {
  on = refl;
  plain = refl;
  weight = refl;
  weight_bound = omega arith;
  step = refl;
  floor = refl;
  floor_bound = (omega arith, omega arith);
  gate_bound = tenth_bound;
}

abbrev blank : Heat
blank r c = pos 0

abbrev lit : Heat
lit r c = pos 150

silent_cell_fades_example :
    (last : Heat) × (iir_history default_iir (some lit) (blank ∷ blank ∷ []) ≡ some last)
    × (last 7 8 ≡ pos 0)
silent_cell_fades_example =
    silent_cell_fades default_iir 200 80 200 default_iir-Decays (blank ∷ blank ∷ []) lit 7 8 150
      (refl, (refl, tt)) refl (omega arith) (omega arith)

far_below_the_floor : cut_floor (pos 80) (negsuc 32700) ≡ pos 32755
unfolding cut_floor ◌-ℤ◌
far_below_the_floor = refl

cut_floor_lem_example : cut_floor (pos 80) (negsuc 32700) ≡ (
    if ltb_ℤ (negsuc 32700) (pos 80 -ℤ pos 32768)
    then negsuc 32700 -ℤ pos 80 +ℤ pos 65536
    else max_ℤ (pos 0) (negsuc 32700 -ℤ pos 80))
cut_floor_lem_example =
    cut_floor_lem (pos 80) (negsuc 32700) (omega arith) (omega arith) (omega arith)
