-- ===== src/TouchSolver/Zone/Flood.antt =====
-- The flood fill of a zone ends, counts every cell that it takes once, and takes no cell of another zone.
use ego_touch_rev.Prelude.{
  ℕ, zero, suc, ◌+◌, ◌-◌, ◌*◌, ◌/◌, ◌%◌, ◌≤◌, ◌<◌, ◌≡◌, refl, ap, arith, List, [], ◌∷◌, Bool, true,
  false, ◌&&◌, ltb, ◌==◌, some, length, get_elem?, get_or, set, length-append, length-set,
  Bool-cases, inl, inr,
}
use ego_touch_rev.Prelude.Int.{ℤ, pos, ltb_ℤ}
use ego_touch_rev.Engine.{Heat}
use ego_touch_rev.Peaks.{Peak}
use ego_touch_rev.TouchSolver.Edge.{no_edge_info, update_edge_info, get_edge_touched_flag}
use ego_touch_rev.TouchSolver.Zone.{
  ZoneUnit, Fill, add_pixel, claim, visit, spread, drain, flag_edges, flood_fill,
}

-- The cells without a zone.
pub free : List ℕ → ℕ
free [] = 0
free (zero ∷ zs) = suc (free zs)
free (suc z ∷ zs) = free zs

free-set : (zs : List ℕ) (i v : ℕ) → get_or zs i 1 ≡ 0 → 0 < v → free (set zs i v) + 1 ≡ free zs
unfolding free
free-set [] i v h k = ground (arith, h)
free-set (zero ∷ zs) zero zero h k = absurd (omega arith)
free-set (zero ∷ zs) zero (suc v) h k = omega arith
free-set (suc z ∷ zs) zero v h k = ground (arith, h)
free-set (zero ∷ zs) (suc i) v h k = omega (arith, free-set zs i v h k)
free-set (suc z ∷ zs) (suc i) v h k = free-set zs i v h k

free-le : (zs : List ℕ) → free zs ≤ length zs
unfolding free
free-le [] = omega arith
free-le (zero ∷ zs) = omega (arith, free-le zs)
free-le (suc z ∷ zs) = omega (arith, free-le zs)

-- Every cell that has a zone keeps it.
pub record Keeps (zs zs' : List ℕ) : Type 0 where
  pub kept : (k z : ℕ) → get_elem? zs k ≡ some (suc z) → get_elem? zs' k ≡ some (suc z)

kept-set :
    (zs : List ℕ) (i v k z : ℕ)
    → get_or zs i 1 ≡ 0
    → get_elem? zs k ≡ some (suc z)
    → get_elem? (set zs i v) k ≡ some (suc z)
kept-set [] i v k z h e = e
kept-set (w ∷ zs) zero v zero z h e = absurd (ground (arith, h, e))
kept-set (w ∷ zs) zero v (suc k) z h e = e
kept-set (w ∷ zs) (suc i) v zero z h e = e
kept-set (w ∷ zs) (suc i) v (suc k) z h e = kept-set zs i v k z h e

-- What each step keeps: the cells that are free or counted, and the zones; and the queue grows by cells
-- that were free only.
pub record Grows (s s' : Fill) : Type 0 where
  pub count :
      free s'.zones + (s'.unit.area + s'.unit.edge_area)
      ≡ free s.zones + (s.unit.area + s.unit.edge_area)
  pub queue : free s'.zones + length s'.queue ≤ free s.zones + length s.queue
  pub fewer : free s'.zones ≤ free s.zones
  pub size : length s'.zones ≡ length s.zones
  pub zones : Keeps s.zones s'.zones

Grows-refl : (s : Fill) → Grows s s
Grows-refl s = record {
  count = refl;
  queue = omega arith;
  fewer = omega arith;
  size = refl;
  zones = record { kept = λ k z e. e };
}

Grows-trans : {s t u : Fill} → Grows s t → Grows t u → Grows s u
Grows-trans g h = record {
  count = omega (arith, g.count, h.count);
  queue = omega (arith, g.queue, h.queue);
  fewer = omega (arith, g.fewer, h.fewer);
  size = omega (arith, g.size, h.size);
  zones = record { kept = λ k z e. h.zones.kept k z (g.zones.kept k z e) };
}

module _ (heat : Heat) (thold : ℤ) (zone : ℕ) (used : 0 < zone) where
  claim-Grows :
      (r c : ℕ) (s : Fill)
      → get_or s.zones (60 * r + c) 1 ≡ 0
      → Grows s (claim heat thold zone r c s)
  unfolding claim
  claim-Grows r c s h = elim (Bool-cases (ltb_ℤ (heat r c) thold)) [
    | inr core ↦
        rw (core, claim)
          (record {
            count = omega (arith, free-set s.zones (60 * r + c) zone h used);
            queue = omega (
              arith,
              free-set s.zones (60 * r + c) zone h used,
              length-append s.queue ((60 * r + c) ∷ []),
            );
            fewer = omega (arith, free-set s.zones (60 * r + c) zone h used);
            size = length-set s.zones (60 * r + c) zone;
            zones = record { kept = λ k z e. kept-set s.zones (60 * r + c) zone k z h e };
          })
    | inl low ↦ elim (Bool-cases (ltb_ℤ (pos 0) (heat r c))) [
      | inl edge ↦
          rw (low, edge, claim)
            (record {
              count = omega (arith, free-set s.zones (60 * r + c) zone h used);
              queue = omega (arith, free-set s.zones (60 * r + c) zone h used);
              fewer = omega (arith, free-set s.zones (60 * r + c) zone h used);
              size = length-set s.zones (60 * r + c) zone;
              zones = record { kept = λ k z e. kept-set s.zones (60 * r + c) zone k z h e };
            })
      | inr out ↦ rw (low, out, claim) (Grows-refl s)
    ]
  ]

  visit-Grows : (inside : Bool) (r c : ℕ) (s : Fill) → Grows s (visit heat thold zone inside r c s)
  unfolding visit
  visit-Grows false r c s = Grows-refl s
  visit-Grows true r c s = elim (Bool-cases (get_or s.zones (60 * r + c) 1 == 0)) [
    | inl open_cell ↦ rw open_cell (claim-Grows r c s (ground arith))
    | inr taken ↦ rw taken (record {
      count = refl;
      queue = omega arith;
      fewer = omega arith;
      size = refl;
      zones = record { kept = λ k z e. e };
    })
  ]

  spread-Grows : (r c : ℕ) (s : Fill) → Grows s (spread heat thold zone r c s)
  unfolding spread
  spread-Grows r c s =
      let s1 = visit heat thold zone (ltb 0 r && ltb 0 c) (r - 1) (c - 1) s in
      let s2 = visit heat thold zone (ltb 0 r) (r - 1) c s1 in
      let s3 = visit heat thold zone (ltb 0 r && ltb c 59) (r - 1) (c + 1) s2 in
      let s4 = visit heat thold zone (ltb 0 c) r (c - 1) s3 in
      let s5 = visit heat thold zone (ltb c 59) r (c + 1) s4 in
      let s6 = visit heat thold zone (ltb r 39 && ltb 0 c) (r + 1) (c - 1) s5 in
      let s7 = visit heat thold zone (ltb r 39) (r + 1) c s6 in
      Grows-trans (visit-Grows (ltb 0 r && ltb 0 c) (r - 1) (c - 1) s) (
        Grows-trans (visit-Grows (ltb 0 r) (r - 1) c s1) (
          Grows-trans (visit-Grows (ltb 0 r && ltb c 59) (r - 1) (c + 1) s2) (
            Grows-trans (visit-Grows (ltb 0 c) r (c - 1) s3) (
              Grows-trans (visit-Grows (ltb c 59) r (c + 1) s4) (
                Grows-trans (visit-Grows (ltb r 39 && ltb 0 c) (r + 1) (c - 1) s5) (
                  Grows-trans (visit-Grows (ltb r 39) (r + 1) c s6)
                    (visit-Grows (ltb r 39 && ltb c 59) (r + 1) (c + 1) s7)))))))

  drain-total :
      (n : ℕ) (queue : List ℕ) (s : Fill)
      → free s.zones + length queue < n
      → (s' : Fill) × (drain heat thold zone n queue s ≡ some s')
        × (free s'.zones + (s'.unit.area + s'.unit.edge_area)
            ≡ free s.zones + (s.unit.area + s.unit.edge_area))
        × (free s'.zones ≤ free s.zones)
        × (length s'.zones ≡ length s.zones)
        × Keeps s.zones s'.zones
  unfolding drain
  drain-total zero queue s enough = absurd (omega arith)
  drain-total (suc n) [] s enough = (s, refl, refl, omega arith, refl, record { kept = λ k z e. e })
  drain-total (suc n) (i ∷ queue) s enough =
      let g = spread-Grows (i / 60) (i % 60) (record s { queue = queue }) in
      let next = spread heat thold zone (i / 60) (i % 60) (record s { queue = queue }) in
      let (s', run, count, fewer, size, keeps) =
        drain-total n next.queue next (omega (arith, g.queue)) in
      (
        s',
        run,
        omega (arith, count, g.count),
        omega (arith, fewer, g.fewer),
        omega (arith, size, g.size),
        record { kept = λ k z e. keeps.kept k z (g.zones.kept k z e) },
      )

-- A flood fill from a peak on a cell of the grid without a zone ends within its 2401 rounds. The areas
-- of the unit grow by as many cells as have got a zone, at least one, and every cell that had a zone
-- keeps it.
pub zone_flood_terminates :
    (heat : Heat) (thold : ℤ) (zone : ℕ) (pk : Peak) (zones : List ℕ) (unit : ZoneUnit)
    → 0 < zone
    → length zones ≡ 2400
    → get_or zones (60 * pk.r + pk.c) 1 ≡ 0
    → (s : Fill) × (flood_fill heat thold zone pk zones unit ≡ some s)
      × (free s.zones + (s.unit.area + s.unit.edge_area)
          ≡ free zones + (unit.area + unit.edge_area))
      × (free s.zones < free zones)
      × (length s.zones ≡ 2400)
      × Keeps zones s.zones
unfolding flood_fill add_pixel
zone_flood_terminates heat thold zone pk zones unit used size unseen =
    let seed = 60 * pk.r + pk.c in
    let one = free-set zones seed zone unseen used in
    let start : Fill = record {
      zones = set zones seed zone;
      queue = seed ∷ [];
      unit = add_pixel pk.r pk.c pk.z unit;
      info = update_edge_info true pk.z pk.c pk.r no_edge_info;
    } in
    let (s, run, count, fewer, same, keeps) =
      drain-total heat thold zone used 2401 (seed ∷ []) start (omega (arith, one, free-le zones)) in
    (
      record s { info = get_edge_touched_flag s.info },
      ap flag_edges run,
      omega (arith, count, one),
      omega (arith, fewer, one),
      omega (arith, same, length-set zones seed zone),
      record { kept = λ k z e. keeps.kept k z (kept-set zones seed zone k z unseen e) },
    )
