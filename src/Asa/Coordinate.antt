-- ===== src/Asa/Coordinate.antt =====
-- CoordinateSolver: EGoTouchService/Engine/StylusSolver/CoordinateSolver.h and .cpp, from the two lines of
-- a projection to a coordinate in steps of 1/1024 of a cell.
use ego_touch_rev.Prelude.{
  ℕ, ◌+◌, ◌-◌, ◌*◌, ◌/◌, List, [], ◌∷◌, Bool, true, false, leb, ◌==◌, Option, none, some,
  if◌then◌else◌, get_or,
}
use ego_touch_rev.Prelude.Int.{clamp_ℤ, quot, wrap16, ℤ, pos, negsuc, ◌+ℤ◌, ◌-ℤ◌, ◌*ℤ◌, ltb_ℤ}
use ego_touch_rev.Asa.{AsaProjection}

abbrev pub coor_unit : ℕ
coor_unit = 0x400

abbrev pub is_zero : ℤ → Bool
is_zero (pos n) = n == 0
is_zero (negsuc n) = false

-- One side of TriangleAlgUsing3Point: the share of the higher neighbour above the lower one.
abbrev pub share : ℤ → ℤ → ℤ → ℤ
share p low high =
    let min_val = if ltb_ℤ low p then low else p -ℤ pos 1 in
    quot (quot ((high -ℤ min_val) *ℤ pos coor_unit) (p -ℤ min_val)) (pos 2)

-- The divisor is never 0, so that the two early returns of 0x200 are not reached.
unfoldable pub triangle_alg_using_3_point : ℤ → ℤ → ℤ → ℤ
unfolding quot
triangle_alg_using_3_point l p r =
    if ltb_ℤ r l then pos 0 -ℤ share p r l +ℤ pos 0x200 else share p l r +ℤ pos 0x200

unfoldable pub triangle_alg_edge : ℤ → ℤ → ℤ → ℤ → ℤ → ℤ
unfolding wrap16 triangle_alg_using_3_point
triangle_alg_edge peak n1 n2 param1 param2 =
    let edge = if is_zero param1 then pos 1 else param1 in
    let comp1 = quot ((peak -ℤ n1) *ℤ pos 10) edge in
    let comp2 = peak -ℤ quot ((n1 -ℤ n2) *ℤ edge) (pos 10) in
    let virtual = wrap16 (if ltb_ℤ comp1 comp2 then comp2 else comp1) in
    let neighbor = if ltb_ℤ virtual peak then virtual else wrap16 (peak -ℤ pos 1) in
    if ltb_ℤ (peak +ℤ n1 +ℤ n2) (quot (param2 *ℤ pos 2) (pos 5))
    then pos 0
    else triangle_alg_using_3_point neighbor peak n1

-- The lambda of SolveByTriangle.
abbrev pub sample : List ℤ → ℕ → ℤ
sample signal i = clamp_ℤ (get_or signal i (pos 0)) (negsuc 32767) (pos 32767)

-- The parameters of an edge are three; `none` is 0x7FFFFFFF.
unfoldable pub solve_by_triangle : List ℤ → Option ℕ → ℕ → ℤ × ℤ × ℤ → Option ℤ
unfolding triangle_alg_edge clamp_ℤ
solve_by_triangle signal none len params = none
solve_by_triangle signal (some i) len (p0, p1, p2) =
    if leb len i
    then none
    else if i == 0
    then some (triangle_alg_edge (sample signal 0) (sample signal 1) (sample signal 2) p0 p2)
    else if i == len - 1
    then some (
        pos (len * coor_unit)
        -ℤ triangle_alg_edge (sample signal (len - 1)) (sample signal (len - 2))
            (sample signal (len - 3)) p0 p1)
    else some (
        pos (i * coor_unit)
        +ℤ triangle_alg_using_3_point (sample signal (i - 1)) (sample signal i)
            (sample signal (i + 1)))

-- The loop of SolveByGravity from index `i` on: the weighted sum and the weight of the positive values.
unfoldable pub weigh : List ℤ → ℕ → ℕ × ℕ
weigh [] i = (0, 0)
weigh (pos v ∷ signal) i =
    let (weighted, total) = weigh signal (i + 1) in (v * i * coor_unit + weighted, v + total)
weigh (negsuc v ∷ signal) i = weigh signal (i + 1)

unfoldable pub solve_by_gravity : List ℤ → Option ℤ
unfolding weigh
solve_by_gravity signal =
    let (weighted, total) = weigh signal 0 in
    if total == 0 then none else some (pos (weighted / total))

-- AsaCoorResult
pub record AsaCoorResult : Type 0 where
  pub dim1 : ℤ
  pub dim2 : ℤ
  pub valid : Bool

pub record Solver : Type 0 where
  pub use_triangle : Bool
  pub tri_param_dim1 : ℤ × ℤ × ℤ
  pub tri_param_dim2 : ℤ × ℤ × ℤ

abbrev pub finish_solve : Option ℤ → Option ℤ → ℕ → ℕ → AsaCoorResult
finish_solve (some d1) (some d2) rows cols = record {
  dim1 = clamp_ℤ d1 (pos 0) (pos (cols * coor_unit - 1));
  dim2 = clamp_ℤ d2 (pos 0) (pos (rows * coor_unit - 1));
  valid = true;
}
finish_solve _ _ rows cols = record { dim1 = pos 0; dim2 = pos 0; valid = false }

-- Solve on a grid of `rows` and `cols`, at least one of each, by default nine.
unfoldable pub solve : Solver → AsaProjection → ℕ → ℕ → AsaCoorResult
unfolding solve_by_triangle solve_by_gravity clamp_ℤ
solve cfg proj rows cols =
    if cfg.use_triangle
    then finish_solve (solve_by_triangle proj.dim1 proj.peak_idx_dim1 9 cfg.tri_param_dim1)
        (solve_by_triangle proj.dim2 proj.peak_idx_dim2 9 cfg.tri_param_dim2) rows cols
    else finish_solve (solve_by_gravity proj.dim1) (solve_by_gravity proj.dim2) rows cols
