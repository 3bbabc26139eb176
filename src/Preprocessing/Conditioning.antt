-- ===== src/Preprocessing/Conditioning.antt =====
-- SignalConditioningFilter.cpp: a moving average over the frames, and a floor that is cut off.
use ego_touch_rev.Prelude.{◌≡◌, arith, Bool, not, Option, none, some, if◌then◌else◌}
use ego_touch_rev.Prelude.Int.{
  ℤ, pos, negsuc, ◌+ℤ◌, ◌-ℤ◌, ◌*ℤ◌, ◌≤ℤ◌, ltb_ℤ, quot, wrap16, to_int16, IsInt16,
}
use ego_touch_rev.Engine.{Heat}
use ego_touch_rev.Preprocessing.Iir.{max_ℤ}

pub record Conditioner : Type 0 where
  pub enabled : Bool
  pub alpha : ℤ
  pub noise_floor : ℤ

-- The moving average of one cell.
unfoldable pub average : ℤ → ℤ → ℤ → ℤ
unfolding quot wrap16
average alpha current history =
    if ltb_ℤ (pos 0) current
    then wrap16 (quot (current *ℤ alpha +ℤ history *ℤ (pos 1000 -ℤ alpha)) (pos 1000))
    else current

-- `std::max<int16_t>(0, v - m_noiseFloor)`, whose arguments are converted to `int16`.
unfoldable pub cut_floor : ℤ → ℤ → ℤ
unfolding wrap16
cut_floor noise_floor v = max_ℤ (pos 0) (wrap16 (v -ℤ noise_floor))

-- The same with the vector instructions of ARM64: vdupq_n_s16, vsubq_s16 and vmaxq_s16 on one lane.
unfoldable pub cut_floor_neon : ℤ → ℤ → ℤ
unfolding wrap16
cut_floor_neon noise_floor v = max_ℤ (pos 0) (wrap16 (v -ℤ wrap16 noise_floor))

abbrev pub averaged : Conditioner → Heat → Heat → Heat
averaged cfg heat old y x =
    if ltb_ℤ cfg.alpha (pos 1000) then average cfg.alpha (heat y x) (old y x) else heat y x

-- The first frame is its own history.
abbrev pub history_of : Heat → Option Heat → Heat
history_of heat none = heat
history_of heat (some old) = old

-- Process, from the history to the matrix and the history.
unfoldable pub process_conditioning : Conditioner → Heat → Option Heat → Heat × Option Heat
unfolding average cut_floor
process_conditioning cfg heat history = if not cfg.enabled then (heat, none) else (
  λ y x. cut_floor cfg.noise_floor (averaged cfg heat (history_of heat history) y x),
  some (averaged cfg heat (history_of heat history)),
)

wrap_difference : (a b : ℤ) → wrap16 (a -ℤ wrap16 b) ≡ wrap16 (a -ℤ b)
unfolding wrap16 to_int16 ◌-ℤ◌
wrap_difference (pos a) (pos b) = ground arith
wrap_difference (pos a) (negsuc b) = ground arith
wrap_difference (negsuc a) (pos b) = ground arith
wrap_difference (negsuc a) (negsuc b) = ground arith

-- Both ways to cut the floor agree on every cell and for every floor.
pub neon_agrees : (noise_floor v : ℤ) → cut_floor_neon noise_floor v ≡ cut_floor noise_floor v
unfolding cut_floor_neon cut_floor
neon_agrees noise_floor v = rw (wrap_difference v noise_floor)

-- A signal is lowered by the floor, and to 0 if it is not above it, as long as it is less than 32768
-- below it. A signal further below comes out positive.
pub cut_floor_lem :
    (floor_value v : ℤ)
    → pos 0 ≤ℤ floor_value
    → IsInt16 floor_value
    → IsInt16 v
    → cut_floor floor_value v ≡ (
        if ltb_ℤ v (floor_value -ℤ pos 32768)
        then v -ℤ floor_value +ℤ pos 65536
        else max_ℤ (pos 0) (v -ℤ floor_value))
unfolding cut_floor wrap16 to_int16 ◌-ℤ◌ ◌+ℤ◌
cut_floor_lem (pos f) (pos v) h k l = ground arith
cut_floor_lem (pos f) (negsuc v) h k l = ground arith
cut_floor_lem (negsuc f) v h k l = absurd (omega arith)
