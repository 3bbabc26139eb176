-- ===== src/Asa.antt =====
-- The pen's grids: EGoTouchService/Engine/StylusSolver/AsaTypes.h and GridPeakDetector.h and .cpp.
-- `Coordinate` is CoordinateSolver and `Post` CoorPostProcessor. A grid of `int16` is the list of
-- its 81 cells, row by row, and an `int` or `int32` is an integer: the sums of at most nine cells
-- stay far below its bounds.
pub mod Coordinate
pub mod Flood
pub mod Line
pub mod Peak
pub mod Post
pub mod Still
pub mod Triangle
pub mod Solve
pub mod Blocks
mod Tests
use ego_touch_rev.Prelude.{
  ℕ, zero, suc, ◌+◌, ◌-◌, ◌*◌, ◌/◌, ◌%◌, List, [], ◌∷◌, ◌++◌, Bool, true, false, not, ◌&&◌, ◌||◌,
  ltb, leb, ◌==◌, Option, none, some, if◌then◌else◌, length, get_or, set, take, drop, map,
  replicate, min,
}
use ego_touch_rev.Prelude.Int.{to_int16, ℤ, pos, negsuc, ◌+ℤ◌, ltb_ℤ}

abbrev pub anchor_invalid : ℕ
anchor_invalid = 0x00FF

pub record FreqBlock : Type 0 where
  pub anchor_row : ℕ
  pub anchor_col : ℕ
  pub grid : List ℤ
  pub valid : Bool

pub record AsaGridData : Type 0 where
  pub tx1 : FreqBlock
  pub tx2 : FreqBlock

abbrev pub clear_block : FreqBlock
clear_block = record {
  anchor_row = anchor_invalid;
  anchor_col = anchor_invalid;
  grid = replicate 81 (pos 0);
  valid = false;
}

-- The block of 83 words at an offset.
unfoldable pub read_block : List ℕ → Bool → FreqBlock
unfolding to_int16
read_block words valid = record {
  anchor_row = get_or words 0 0;
  anchor_col = get_or words 1 0;
  grid = map to_int16 (take 81 (drop 2 words));
  valid = valid;
}

unfoldable pub extract_grid_from_slave_words : List ℕ → AsaGridData
unfolding read_block
extract_grid_from_slave_words words =
    if ltb (length words) 166
    then record { tx1 = clear_block; tx2 = clear_block }
    else (let valid =
          not (get_or words 0 0 == anchor_invalid) || not (get_or words 1 0 == anchor_invalid) in
        record { tx1 = read_block words valid; tx2 = read_block (drop 83 words) valid })

-- The settings of GridPeakDetector.
pub record Detector : Type 0 where
  pub noise_threshold : ℤ
  pub max_connected : ℕ
  pub proj_radius : ℕ

abbrev pub default_detector : Detector
default_detector = record { noise_threshold = pos 50; max_connected = 81; proj_radius = 2 }

pub record GridPeakUnit : Type 0 where
  pub peak_row : ℤ
  pub peak_col : ℤ
  pub peak_value : ℤ
  pub neighbor_sum_3x3 : ℤ
  pub connected_pixels : ℕ
  pub valid : Bool

-- A peak index of -1 is `none`.
pub record AsaProjection : Type 0 where
  pub dim1 : List ℤ
  pub dim2 : List ℤ
  pub peak_idx_dim1 : Option ℕ
  pub peak_idx_dim2 : Option ℕ

abbrev pub cell : List ℤ → ℕ → ℕ → ℤ
cell grid r c = get_or grid (9 * r + c) (pos 0)

module _ (cfg : Detector) (grid : List ℤ) where
  unfoldable pub is_peak : ℕ → ℕ → Bool
  is_peak r c =
      let val = cell grid r c in
      ltb_ℤ cfg.noise_threshold val
      && (not (ltb 0 r && ltb_ℤ val (cell grid (r - 1) c))
          && (not (ltb r 8 && ltb_ℤ val (cell grid (r + 1) c))
              && (not (ltb 0 c && ltb_ℤ val (cell grid r (c - 1)))
                  && not (ltb c 8 && ltb_ℤ val (cell grid r (c + 1))))))

  -- One neighbour of FloodFill's loop; `inside` is the bounds test.
  unfoldable pub visit : Bool → ℕ → ℕ → List Bool × List (ℕ × ℕ) → List Bool × List (ℕ × ℕ)
  visit inside r c (visited, stack) =
      if not inside || get_or visited (9 * r + c) true
      then (visited, stack)
      else if not (ltb_ℤ cfg.noise_threshold (cell grid r c))
      then (visited, stack)
      else (set visited (9 * r + c) true, (r, c) ∷ stack)

  -- The four neighbours, in the order of the code: up, down, left, right.
  unfoldable pub expand : ℕ → ℕ → List Bool × List (ℕ × ℕ) → List Bool × List (ℕ × ℕ)
  unfolding visit
  expand r c s =
      visit (ltb c 8) r (c + 1)
        (visit (ltb 0 c) r (c - 1) (visit (ltb r 8) (r + 1) c (visit (ltb 0 r) (r - 1) c s)))

  -- The loop of FloodFill with the rounds that are left, and `none` when these do not suffice.
  unfoldable pub flood :
      ℕ → List Bool × List (ℕ × ℕ) → List (ℕ × ℕ) → Option (List Bool × List (ℕ × ℕ))
  unfolding expand
  flood zero s region = none
  flood (suc n) (visited, []) region = some (visited, region)
  flood (suc n) (visited, (r, c) ∷ stack) region =
      flood n (expand r c (visited, stack)) (region ++ (r, c) ∷ [])

  -- FloodFill: the cells that are visited now, and the region.
  unfoldable pub flood_fill : List Bool → ℕ → ℕ → Option (List Bool × List (ℕ × ℕ))
  unfolding flood
  flood_fill visited r c = flood 82 (set visited (9 * r + c) true, (r, c) ∷ []) []

  -- One of the nine terms of Calc3x3Sum, at an offset by `dr - 1` and `dc - 1`.
  abbrev pub term : ℕ → ℕ → ℕ → ℕ → ℤ
  term r c dr dc =
      if (ltb 0 (r + dr) && ltb (r + dr) 10) && (ltb 0 (c + dc) && ltb (c + dc) 10)
      then cell grid (r + dr - 1) (c + dc - 1)
      else pos 0

  unfoldable pub calc_3x3_sum : ℕ → ℕ → ℤ
  calc_3x3_sum r c =
      term r c 0 0
      +ℤ term r c 0 1
      +ℤ term r c 0 2
      +ℤ term r c 1 0
      +ℤ term r c 1 1
      +ℤ term r c 1 2
      +ℤ term r c 2 0
      +ℤ term r c 2 1
      +ℤ term r c 2 2

  -- The body of FindPeak behind the flood fill, for the region's number of cells.
  unfoldable pub compare_peak : ℕ → ℕ → ℕ → GridPeakUnit → GridPeakUnit
  unfolding calc_3x3_sum
  compare_peak r c count best =
      let nsum = calc_3x3_sum r c in
      if leb cfg.max_connected count || not (ltb_ℤ best.neighbor_sum_3x3 nsum)
      then best
      else record {
        peak_row = pos r;
        peak_col = pos c;
        peak_value = cell grid r c;
        neighbor_sum_3x3 = nsum;
        connected_pixels = count;
        valid = true;
      }

  -- The two loops of FindPeak from cell `i` on, with the cells that are left.
  unfoldable pub scan : ℕ → ℕ → List Bool → GridPeakUnit → GridPeakUnit
  unfolding is_peak flood_fill compare_peak
  scan zero i visited best = best
  scan (suc n) i visited best = elim (get_or visited i true || not (is_peak (i / 9) (i % 9))) [
    | true ↦ scan n (i + 1) visited best
    | false ↦ elim (flood_fill visited (i / 9) (i % 9)) [
      | none ↦ best
      | some (visited', region) ↦
          scan n (i + 1) visited' (compare_peak (i / 9) (i % 9) (length region) best)
    ]
  ]

  unfoldable pub find_peak : GridPeakUnit
  unfolding scan
  find_peak = scan 81 0 (replicate 81 false) (record {
    peak_row = negsuc 0;
    peak_col = negsuc 0;
    peak_value = pos 0;
    neighbor_sum_3x3 = pos 0;
    connected_pixels = 0;
    valid = false;
  })

-- The loop of FindLinePeak at index `i`, with the best index and its value so far.
unfoldable pub best_index : List ℤ → ℕ → ℕ → ℤ → ℕ × ℤ
best_index [] i best value = (best, value)
best_index (x ∷ xs) i best value =
    if ltb_ℤ value x then best_index xs (i + 1) i x else best_index xs (i + 1) best value

-- FindLinePeak on a signal that has a first value.
unfoldable pub find_line_peak : List ℤ → Option ℕ
unfolding best_index
find_line_peak [] = none
find_line_peak (x ∷ xs) =
    let (best, value) = best_index xs 1 0 x in if ltb_ℤ (pos 0) value then some best else none

-- The sum of `n` values of a loop from `i` on.
unfoldable pub sum_from : (ℕ → ℤ) → ℕ → ℕ → ℤ
sum_from f i zero = pos 0
sum_from f i (suc n) = f i +ℤ sum_from f (i + 1) n

-- The nine values of a loop over a line.
abbrev pub line : (ℕ → ℤ) → List ℤ
line f = f 0 ∷ f 1 ∷ f 2 ∷ f 3 ∷ f 4 ∷ f 5 ∷ f 6 ∷ f 7 ∷ f 8 ∷ []

abbrev pub to_index : ℤ → ℕ
to_index (pos n) = n
to_index (negsuc n) = 0

unfoldable pub project_to_1d : Detector → List ℤ → GridPeakUnit → AsaProjection
unfolding find_line_peak sum_from
project_to_1d cfg grid peak =
    if not peak.valid
    then record {
      dim1 = replicate 9 (pos 0);
      dim2 = replicate 9 (pos 0);
      peak_idx_dim1 = none;
      peak_idx_dim2 = none;
    }
    else (let row = to_index peak.peak_row in
        let col = to_index peak.peak_col in
        let r_min = row - cfg.proj_radius in
        let r_max = min 8 (row + cfg.proj_radius) in
        let c_min = col - cfg.proj_radius in
        let c_max = min 8 (col + cfg.proj_radius) in
        let dim1 = line (λ c. sum_from (λ r. cell grid r c) r_min (r_max + 1 - r_min)) in
        let dim2 = line (λ r. sum_from (λ c. cell grid r c) c_min (c_max + 1 - c_min)) in
        record {
          dim1 = dim1;
          dim2 = dim2;
          peak_idx_dim1 = find_line_peak dim1;
          peak_idx_dim2 = find_line_peak dim2;
        })
