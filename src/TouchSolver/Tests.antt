-- ===== src/TouchSolver/Tests.antt =====
-- The touch solver on sizes and zones that are written out.
use ego_touch_rev.Prelude.{
  ℕ, ◌+◌, ◌<◌, ◌≡◌, refl, arith, List, [], ◌∷◌, ◌++◌, ◌&&◌, ◌==◌, if◌then◌else◌, some, length,
  length-replicate, get_or, replicate, zero, suc,
}
use ego_touch_rev.Prelude.Int.{pos, ◌*ℤ◌, negsuc, wrap32}
use ego_touch_rev.Engine.{Heat}
use ego_touch_rev.Peaks.{Peak}
use ego_touch_rev.TouchSolver.Size.{
  radius_threshold, grow_radius, get_size_in_mm, contact_size, Fitting, size_is_least_radius,
}
use ego_touch_rev.TouchSolver.Zone.{
  Zones, Fill, no_zones, empty_unit, default_scale, flood_fill, expand_peaks,
}
use ego_touch_rev.TouchSolver.Closing.{around, vote, fill_gap, dilate_and_erode}
use ego_touch_rev.TouchSolver.Closing.Votes.{Closed, gaps_follow_majority}
use ego_touch_rev.TouchSolver.Zone.Flood.{Keeps, free, zone_flood_terminates}
use ego_touch_rev.TouchSolver.Zone.Expand.{Extends, every_peak_gets_unit}

size_is_least_radius_example :
    (contact_size 5 (pos 300) (pos 128) ≡ get_size_in_mm (pos 300) (pos 128))
    × Fitting 128 (pos 300) (get_size_in_mm (pos 300) (pos 128))
size_is_least_radius_example =
    size_is_least_radius 5 128 (pos 300) (omega arith) (omega arith) (omega arith)

size_of_300 : get_size_in_mm (pos 300) (pos 128) ≡ 14
unfolding get_size_in_mm grow_radius radius_threshold wrap32 ◌*ℤ◌
size_of_300 = refl

-- A sum below -2 ^ 21, whose shift wraps to a positive value.
size_of_wrapped : get_size_in_mm (negsuc 2200000) (pos 128) ≡ 15
unfolding get_size_in_mm grow_radius radius_threshold wrap32 ◌*ℤ◌
size_of_wrapped = refl

-- A touch of 500 on cell (10, 20) and of 300 right of it.
abbrev touch : Heat
touch r c =
    if (r == 10) && (c == 20) then pos 500 else if (r == 10) && (c == 21) then pos 300 else pos 0

abbrev touch_peak : Peak
touch_peak = record {
  r = 10;
  c = 20;
  z = pos 500;
  neighbor_signal_sum = pos 300;
  id = 1;
  tz_age = 0;
}

no_zone_yet : (n k : ℕ) → k < n → get_or {A = ℕ} (replicate n 0) k 1 ≡ 0
no_zone_yet zero k h = absurd (omega arith)
no_zone_yet (suc n) zero h = refl
no_zone_yet (suc n) (suc k) h = no_zone_yet n k (omega arith)

zone_flood_terminates_example :
    (s : Fill) × (flood_fill touch (pos 250) 1 touch_peak (replicate 2400 0) empty_unit ≡ some s)
    × (free s.zones + (s.unit.area + s.unit.edge_area)
        ≡ free (replicate 2400 0) + (empty_unit.area + empty_unit.edge_area))
    × (free s.zones < free (replicate 2400 0))
    × (length s.zones ≡ 2400)
    × Keeps (replicate 2400 0) s.zones
zone_flood_terminates_example =
    zone_flood_terminates touch (pos 250) 1 touch_peak (replicate 2400 0) empty_unit (omega arith)
      (length-replicate {A = ℕ} 2400 0) (no_zone_yet 2400 620 (omega arith))

every_peak_gets_unit_example :
    (z : Zones) × (expand_peaks default_scale touch
        (pos 250)
        0
        (touch_peak ∷ touch_peak ∷ [])
        no_zones
      ≡ some z)
    × Extends (length (touch_peak ∷ touch_peak ∷ [])) no_zones z
every_peak_gets_unit_example =
    every_peak_gets_unit default_scale touch (pos 250) 0 (touch_peak ∷ touch_peak ∷ []) no_zones
      (omega arith) (length-replicate {A = ℕ} 2400 0)

-- Cell 61 has three neighbours in zone 1, two in zone 2, and none around those above.
abbrev three_to_two : List ℕ
three_to_two = 1 ∷ 1 ∷ 1 ∷ replicate 57 0 ++ 2 ∷ 0 ∷ 2 ∷ replicate 2337 0

gap_takes_zone_1 : fill_gap three_to_two 61 ≡ 1
unfolding fill_gap vote around
gap_takes_zone_1 = refl

gaps_follow_majority_example : Closed three_to_two 61 (get_or (dilate_and_erode three_to_two) 61 0)
gaps_follow_majority_example = gaps_follow_majority three_to_two 61 (omega arith)
