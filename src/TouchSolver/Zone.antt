-- ===== src/TouchSolver/Zone.antt =====
-- ZoneExpander.cpp: a zone of cells around every peak. The weighted sums wrap at 32
-- bits; the sums of at most 2400 signals stay below 2 ^ 31 and are exact.
pub mod Expand
pub mod Flood
use ego_touch_rev.Prelude.{
  ℕ, zero, suc, ◌+◌, ◌-◌, ◌*◌, ◌/◌, ◌%◌, List, [], ◌∷◌, ◌++◌, Bool, true, false, not, ◌&&◌, ◌||◌,
  ltb, leb, ◌==◌, Option, none, some, if◌then◌else◌, length, get_elem?, get_or, set, replicate,
}
use ego_touch_rev.Prelude.Int.{ℤ, pos, ◌+ℤ◌, ◌*ℤ◌, ltb_ℤ, shr, wrap16, wrap32}
use ego_touch_rev.Engine.{Heat}
use ego_touch_rev.Peaks.{Peak}
use ego_touch_rev.TouchSolver.Edge.{
  ZoneEdgeInfo, no_edge_info, update_edge_info, get_edge_touched_flag,
}

-- `overlap` is the bit 0x4000 of the flags, the only one that is ever set.
pub record ZoneUnit : Type 0 where
  pub signal_sum : ℤ
  pub weighted_col_sum : ℤ
  pub weighted_row_sum : ℤ
  pub weight_total : ℤ
  pub area : ℕ
  pub edge_area : ℕ
  pub edge_signal_sum : ℤ
  pub overlap : Bool
  pub peak_col : ℕ
  pub peak_row : ℕ
  pub peak_sig : ℤ
  pub peak_indices : List ℕ

abbrev pub empty_unit : ZoneUnit
empty_unit = record {
  signal_sum = pos 0;
  weighted_col_sum = pos 0;
  weighted_row_sum = pos 0;
  weight_total = pos 0;
  area = 0;
  edge_area = 0;
  edge_signal_sum = pos 0;
  overlap = false;
  peak_col = 0;
  peak_row = 0;
  peak_sig = pos 0;
  peak_indices = [];
}

unfoldable pub calc_zone_thold : ℕ → ℕ → ℤ → ℤ → ℤ
unfolding shr wrap16
calc_zone_thold numer shift sig_thold peak_sig =
    let base = if ltb_ℤ peak_sig sig_thold then peak_sig else sig_thold in
    let result = shr (base *ℤ pos numer) shift in
    wrap16 (if ltb_ℤ (pos 1) result then result else pos 1)

-- The lambda of FloodFill.
unfoldable pub add_pixel : ℕ → ℕ → ℤ → ZoneUnit → ZoneUnit
unfolding wrap32
add_pixel r c sig u =
    let weighs = ltb_ℤ (pos 0) sig in
    record u {
      area = u.area + 1;
      signal_sum = u.signal_sum +ℤ sig;
      weighted_col_sum =
          if weighs
          then wrap32 (u.weighted_col_sum +ℤ pos (c * 128) *ℤ sig)
          else u.weighted_col_sum;
      weighted_row_sum =
          if weighs
          then wrap32 (u.weighted_row_sum +ℤ pos (r * 128) *ℤ sig)
          else u.weighted_row_sum;
      weight_total = if weighs then u.weight_total +ℤ sig else u.weight_total;
    }

-- What FloodFill works on: m_touchZones, the queue, and the unit and the edge info of the peak.
pub record Fill : Type 0 where
  pub zones : List ℕ
  pub queue : List ℕ
  pub unit : ZoneUnit
  pub info : ZoneEdgeInfo

module _ (heat : Heat) (thold : ℤ) (zone : ℕ) where
  -- A neighbour inside the grid with no zone yet.
  unfoldable pub claim : ℕ → ℕ → Fill → Fill
  unfolding add_pixel
  claim r c s =
      let sig = heat r c in
      if not (ltb_ℤ sig thold)
      then record {
        zones = set s.zones (60 * r + c) zone;
        queue = s.queue ++ (60 * r + c) ∷ [];
        unit = add_pixel r c sig s.unit;
        info = update_edge_info true sig c r s.info;
      }
      else if ltb_ℤ (pos 0) sig
      then record s {
        zones = set s.zones (60 * r + c) zone;
        unit = record s.unit {
          edge_area = s.unit.edge_area + 1;
          edge_signal_sum = s.unit.edge_signal_sum +ℤ sig;
        };
        info = update_edge_info false sig c r s.info;
      }
      else s

  -- One neighbour of the loop; `inside` is the bounds test.
  unfoldable pub visit : Bool → ℕ → ℕ → Fill → Fill
  unfolding claim
  visit inside r c s =
      let other = get_or s.zones (60 * r + c) 1 in
      if not inside then s else if other == 0 then claim r c s else record s {
        unit = record s.unit { overlap = if other == zone then s.unit.overlap else true };
      }

  -- The eight neighbours of cell `(r, c)`, in the order of the code.
  unfoldable pub spread : ℕ → ℕ → Fill → Fill
  unfolding visit
  spread r c s =
      let s1 = visit (ltb 0 r && ltb 0 c) (r - 1) (c - 1) s in
      let s2 = visit (ltb 0 r) (r - 1) c s1 in
      let s3 = visit (ltb 0 r && ltb c 59) (r - 1) (c + 1) s2 in
      let s4 = visit (ltb 0 c) r (c - 1) s3 in
      let s5 = visit (ltb c 59) r (c + 1) s4 in
      let s6 = visit (ltb r 39 && ltb 0 c) (r + 1) (c - 1) s5 in
      let s7 = visit (ltb r 39) (r + 1) c s6 in visit (ltb r 39 && ltb c 59) (r + 1) (c + 1) s7

  -- The loop with the rounds that are left, and `none` when these do not suffice.
  unfoldable pub drain : ℕ → List ℕ → Fill → Option Fill
  drain zero queue s = none
  drain (suc n) [] s = some s
  drain (suc n) (i ∷ queue) s =
      let next = spread (i / 60) (i % 60) (record s { queue = queue }) in drain n next.queue next

abbrev pub flag_edges : Option Fill → Option Fill
flag_edges none = none
flag_edges (some s) = some (record s { info = get_edge_touched_flag s.info })

-- FloodFill from a peak, with 2401 rounds, one more than the grid has cells.
unfoldable pub flood_fill : Heat → ℤ → ℕ → Peak → List ℕ → ZoneUnit → Option Fill
flood_fill heat thold zone pk zones unit =
    let seed = 60 * pk.r + pk.c in
    flag_edges (
      drain heat thold zone 2401 (seed ∷ []) (record {
        zones = set zones seed zone;
        queue = seed ∷ [];
        unit = add_pixel pk.r pk.c pk.z unit;
        info = update_edge_info true pk.z pk.c pk.r no_edge_info;
      }))

-- m_tholdScaleNumer and m_tholdScaleShift.
pub record Scale : Type 0 where
  pub numer : ℕ
  pub shift : ℕ

abbrev pub default_scale : Scale
default_scale = record { numer = 0x40; shift = 7 }

-- m_touchZones, and the units and edge infos of the peaks so far.
pub record Zones : Type 0 where
  pub touch_zones : List ℕ
  pub units : List ZoneUnit
  pub edge_infos : List ZoneEdgeInfo

abbrev pub no_zones : Zones
no_zones = record { touch_zones = replicate 2400 0; units = []; edge_infos = [] }

abbrev pub seed_unit : ℕ → Peak → ZoneUnit
seed_unit pi pk = record empty_unit {
  peak_col = pk.c;
  peak_row = pk.r;
  peak_sig = pk.z;
  peak_indices = pi ∷ [];
}

module _ (scale : Scale) (heat : Heat) (sig_thold : ℤ) where
  -- A peak whose cell has a zone keeps the empty unit and edge info.
  unfoldable pub expand_peak : ℕ → Peak → Zones → Option Zones
  expand_peak pi pk z =
      if not (get_or z.touch_zones (60 * pk.r + pk.c) 1 == 0)
      then some (record z {
        units = z.units ++ empty_unit ∷ [];
        edge_infos = z.edge_infos ++ no_edge_info ∷ [];
      })
      else elim (flood_fill heat (calc_zone_thold scale.numer scale.shift sig_thold pk.z)
          ((pi + 1) % 256) pk z.touch_zones (seed_unit pi pk)) [
            | none ↦ none
            | some s ↦ some (record {
              touch_zones = s.zones;
              units = z.units ++ s.unit ∷ [];
              edge_infos = z.edge_infos ++ s.info ∷ [];
            })
          ]

  -- The loop of Process over the peaks from index `pi` on.
  unfoldable pub expand_peaks : ℕ → List Peak → Zones → Option Zones
  expand_peaks pi [] z = some z
  expand_peaks pi (pk ∷ pks) z = elim (expand_peak pi pk z) [
    | none ↦ none
    | some z' ↦ expand_peaks (pi + 1) pks z'
  ]
