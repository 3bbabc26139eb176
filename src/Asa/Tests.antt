-- ===== src/Asa/Tests.antt =====
-- Two neighbouring cells of signal on a grid, and the theorems at them.
use ego_touch_rev.Prelude.{
  ◌⊎◌, not, ℕ, zero, suc, ◌+◌, ◌≤◌, ◌≡◌, refl, arith, List, [], ◌∷◌, ◌++◌, Bool, true, false, some,
  length, replicate, set, All,
}
use ego_touch_rev.Prelude.Int.{quot, clamp_ℤ, IsInt16, ℤ, pos, negsuc, ◌+ℤ◌, ◌-ℤ◌, ◌*ℤ◌, ltb_ℤ}
use ego_touch_rev.Asa.{
  default_detector, AsaProjection, is_peak, visit, expand, flood, flood_fill, calc_3x3_sum,
  compare_peak, scan, find_peak, project_to_1d, extract_grid_from_slave_words,
}
use ego_touch_rev.Asa.Coordinate.{solve_by_triangle, triangle_alg_using_3_point, Solver}
use ego_touch_rev.Asa.Coordinate.{AsaCoorResult}
use ego_touch_rev.Asa.Post.{PostFloat, PostConfig, has_moved, process, reset_post}
use ego_touch_rev.Asa.Still.{output_rests_or_jumps}
use ego_touch_rev.Asa.Flood.{IsSignal, unvisited, flood_fill_terminates}
use ego_touch_rev.Asa.Blocks.{block_words, grids_roundtrip}

abbrev grid : List ℤ
grid = set (set (replicate 81 (pos 0)) 40 (pos 300)) 41 (pos 200)

abbrev fresh : List Bool
fresh = replicate 81 false

center_peak : is_peak default_detector grid 4 4 ≡ true
unfolding is_peak
center_peak = refl

flood_fill_terminates_example :
    (s : List Bool × List (ℕ × ℕ)) × (flood_fill default_detector grid fresh 4 4 ≡ some s)
    × All (IsSignal default_detector grid) s.1
    × (unvisited s.0 + length s.1 ≡ unvisited fresh)
    × (length s.1 ≤ 81)
flood_fill_terminates_example =
    flood_fill_terminates default_detector grid fresh 4 4 refl (omega arith) (omega arith) refl
      center_peak

found : (find_peak default_detector grid).valid ≡ true
unfolding find_peak scan is_peak flood_fill flood expand visit compare_peak calc_3x3_sum ◌+ℤ◌
found = refl

-- A grid without a cell below the threshold is one region of 81 cells, which is not below the limit.
full_grid : (find_peak default_detector (replicate 81 (pos 100))).valid ≡ false
unfolding find_peak scan is_peak flood_fill flood expand visit compare_peak calc_3x3_sum ◌+ℤ◌
full_grid = refl

abbrev tail : List ℤ
tail = pos 0 ∷ pos 0 ∷ pos 100 ∷ pos 300 ∷ pos 200 ∷ pos 0 ∷ pos 0 ∷ negsuc 5 ∷ []

abbrev tied : List ℤ
tied = pos 0 ∷ pos 0 ∷ pos 0 ∷ pos 0 ∷ pos 5 ∷ pos 5 ∷ pos 0 ∷ pos 0 ∷ pos 0 ∷ []

-- Two equal values: the peak is the first one, and the coordinate the first one of the next cell.
tie_leaves_cell : solve_by_triangle tied (some 4) 9 (pos 0, pos 0, pos 0) ≡ some (pos 5120)
unfolding solve_by_triangle triangle_alg_using_3_point quot clamp_ℤ ◌-ℤ◌ ◌+ℤ◌ ◌*ℤ◌
tie_leaves_cell = refl

abbrev triangle : Solver
triangle = record {
  use_triangle = true;
  tri_param_dim1 = (pos 0, pos 0, pos 0);
  tri_param_dim2 = (pos 0, pos 0, pos 0);
}

abbrev projection : AsaProjection
projection = project_to_1d default_detector grid (find_peak default_detector grid)

All-replicate : (n : ℕ) (v : ℤ) → IsInt16 v → All IsInt16 (replicate n v)
All-replicate zero v h = tt
All-replicate (suc n) v h = (h, All-replicate n v h)

grids_roundtrip_example :
    extract_grid_from_slave_words
      (block_words 3 0xFF (replicate 81 (negsuc 4)) ++ (block_words 0 0 grid ++ []))
    ≡ record {
      tx1 = record {
        anchor_row = 3;
        anchor_col = 0xFF;
        grid = replicate 81 (negsuc 4);
        valid = true;
      };
      tx2 = record { anchor_row = 0; anchor_col = 0; grid = grid; valid = true };
    }
grids_roundtrip_example =
    grids_roundtrip 3 0xFF 0 0 (replicate 81 (negsuc 4)) grid [] refl refl
      (All-replicate 81 (negsuc 4) (omega arith)) (ground arith)

-- Integers in place of `float`, and a filter that follows at once.
abbrev ints : PostFloat ℤ
ints = record {
  ops = record {
    zero_f = pos 0;
    add_f = λ a b. a +ℤ b;
    sub_f = λ a b. a -ℤ b;
    mul_f = λ a b. a *ℤ b;
    lt_f = ltb_ℤ;
    le_f = λ a b. not (ltb_ℤ b a);
  };
  one_f = pos 1;
  div_f = λ a b. a;
  sqrt_f = λ a. a;
  of_int = λ a. a;
  lround = λ a. a;
}

abbrev settings : PostConfig ℤ
settings = record {
  iir_low_coef = pos 1;
  iir_high_coef = pos 1;
  speed_low_thr = pos 10;
  speed_high_thr = pos 204;
  jitter_lock_threshold = pos 20;
  enable_3_point_avg = true;
}

abbrev at : ℕ → AsaCoorResult
at x = record { dim1 = pos x; dim2 = pos 500; valid = true }

abbrev lost : AsaCoorResult
lost = record (at 0) { valid = false }

output_rests_or_jumps_example :
    let (out1, s1) = process ints settings (at 1000) (reset_post ints settings) in
    let (out2, s2) = process ints settings (at 1015) s1 in
    (out2 ≡ out1) ⊎ (has_moved ints settings out2 out1 ≡ true)
output_rests_or_jumps_example =
    output_rests_or_jumps ints settings (at 1000) (at 1015) (reset_post ints settings) refl refl
