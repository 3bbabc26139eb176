-- ===== src/TouchSolver/Zone/Expand.antt =====
-- The loop of ZoneExpander::Process over the peaks ends with a unit and an edge info for each peak.
use ego_touch_rev.Prelude.{
  ℕ, ◌+◌, ◌*◌, ◌%◌, ◌≤◌, ◌<◌, ◌≡◌, refl, ◌∙◌, arith, List, [], ◌∷◌, ◌++◌, ◌==◌, some, length,
  get_or, length-append, Bool-cases, inl, inr,
}
use ego_touch_rev.Prelude.Int.{ℤ}
use ego_touch_rev.Engine.{Heat}
use ego_touch_rev.Peaks.{Peak}
use ego_touch_rev.TouchSolver.Edge.{no_edge_info}
use ego_touch_rev.TouchSolver.Zone.{
  Scale, Zones, empty_unit, seed_unit, calc_zone_thold, expand_peak, expand_peaks,
}
use ego_touch_rev.TouchSolver.Zone.Flood.{Keeps, free, zone_flood_terminates}

-- From `z` to `z'`, `count` units and edge infos are added and no cell loses its zone.
pub record Extends (count : ℕ) (z z' : Zones) : Type 0 where
  pub size : length z'.touch_zones ≡ 2400
  pub units : length z'.units ≡ length z.units + count
  pub infos : length z'.edge_infos ≡ length z.edge_infos + count
  pub fewer : free z'.touch_zones ≤ free z.touch_zones
  pub keeps : Keeps z.touch_zones z'.touch_zones

small_zone : (pi : ℕ) → pi < 255 → 0 < (pi + 1) % 256
small_zone pi h = omega arith

module _ (scale : Scale) (heat : Heat) (sig_thold : ℤ) where
  expand_peak-total :
      (pi : ℕ) (pk : Peak) (z : Zones)
      → pi < 255
      → length z.touch_zones ≡ 2400
      → (z' : Zones) × (expand_peak scale heat sig_thold pi pk z ≡ some z') × Extends 1 z z'
  unfolding expand_peak
  expand_peak-total pi pk z small size =
      elim (Bool-cases (get_or z.touch_zones (60 * pk.r + pk.c) 1 == 0)) [
        | inr t ↦ (
          record z {
            units = z.units ++ empty_unit ∷ [];
            edge_infos = z.edge_infos ++ no_edge_info ∷ [];
          },
          rw t refl,
          record {
            size = size;
            units = length-append z.units (empty_unit ∷ []);
            infos = length-append z.edge_infos (no_edge_info ∷ []);
            fewer = omega arith;
            keeps = record { kept = λ k v e. e };
          },
        )
        | inl t ↦
            let (s, run, count, fewer, same, keeps) =
              zone_flood_terminates heat (calc_zone_thold scale.numer scale.shift sig_thold pk.z)
                ((pi + 1) % 256) pk z.touch_zones (seed_unit pi pk) (small_zone pi small) size
                (ground (arith, t)) in
            (
              record {
                touch_zones = s.zones;
                units = z.units ++ s.unit ∷ [];
                edge_infos = z.edge_infos ++ s.info ∷ [];
              },
              rw (t, run) refl,
              record {
                size = same;
                units = length-append z.units (s.unit ∷ []);
                infos = length-append z.edge_infos (s.info ∷ []);
                fewer = omega (arith, fewer);
                keeps = keeps;
              },
            )
      ]

  expand_peaks-step :
      (pi : ℕ) (pk : Peak) (pks : List Peak) (z z' : Zones)
      → expand_peak scale heat sig_thold pi pk z ≡ some z'
      → expand_peaks scale heat sig_thold pi (pk ∷ pks) z
        ≡ expand_peaks scale heat sig_thold (pi + 1) pks z'
  unfolding expand_peaks
  expand_peaks-step pi pk pks z z' run = rw (expand_peaks, run) refl

  -- For up to 255 peaks the expansion ends, with one unit and one edge info for each peak. A cell that
  -- had a zone keeps it, and no cell loses its zone.
  pub every_peak_gets_unit :
      (pi : ℕ) (pks : List Peak) (z : Zones)
      → pi + length pks ≤ 255
      → length z.touch_zones ≡ 2400
      → (z' : Zones) × (expand_peaks scale heat sig_thold pi pks z ≡ some z')
        × Extends (length pks) z z'
  unfolding expand_peaks
  every_peak_gets_unit pi [] z few size = (
    z,
    refl,
    record {
      size = size;
      units = omega arith;
      infos = omega arith;
      fewer = omega arith;
      keeps = record { kept = λ k v e. e };
    },
  )
  every_peak_gets_unit pi (pk ∷ pks) z few size =
      let (z1, run, e1) = expand_peak-total pi pk z (omega arith) size in
      let (z2, rest, e2) = every_peak_gets_unit (pi + 1) pks z1 (omega arith) e1.size in
      (
        z2,
        expand_peaks-step pi pk pks z z1 run ∙ rest,
        record {
          size = e2.size;
          units = omega (arith, e1.units, e2.units);
          infos = omega (arith, e1.infos, e2.infos);
          fewer = omega (arith, e1.fewer, e2.fewer);
          keeps = record { kept = λ k v e. e2.keeps.kept k v (e1.keeps.kept k v e) };
        },
      )
