-- ===== src/Asa/Solve.antt =====
-- The coordinates that CoordinateSolver yields.
use ego_touch_rev.Prelude.{ℕ, ◌-◌, ◌*◌, ◌<◌, arith, inl, inr, Option, none, some, Bool-cases}
use ego_touch_rev.Prelude.Int.{clamp_ℤ, ℤ, pos, ◌≤ℤ◌}
use ego_touch_rev.Asa.{AsaProjection}
use ego_touch_rev.Asa.Coordinate.{
  solve_by_triangle, finish_solve, AsaCoorResult, Solver, solve, solve_by_gravity,
}

clamp_ℤ-range :
    (v : ℤ) (hi : ℕ)
    → (pos 0 ≤ℤ clamp_ℤ v (pos 0) (pos hi)) × (clamp_ℤ v (pos 0) (pos hi) ≤ℤ pos hi)
unfolding clamp_ℤ
clamp_ℤ-range v hi = (ground arith, ground arith)

On : AsaCoorResult → ℕ → ℕ → Type 0
On r rows cols =
    (pos 0 ≤ℤ r.dim1)
    × (r.dim1 ≤ℤ pos (cols * 0x400 - 1))
    × (pos 0 ≤ℤ r.dim2)
    × (r.dim2 ≤ℤ pos (rows * 0x400 - 1))

finish-On : (a b : Option ℤ) (rows cols : ℕ) → On (finish_solve a b rows cols) rows cols
unfolding On
finish-On (some d1) (some d2) rows cols =
    let (l1, h1) = clamp_ℤ-range d1 (cols * 0x400 - 1) in
    let (l2, h2) = clamp_ℤ-range d2 (rows * 0x400 - 1) in (l1, h1, l2, h2)
finish-On none b rows cols = (omega arith, omega arith, omega arith, omega arith)
finish-On (some d1) none rows cols = (omega arith, omega arith, omega arith, omega arith)

-- On a grid that has rows and columns Solve yields coordinates on it, from 0 to 1024 for each cell less 1, with either way of
-- interpolation, whatever the projection and the parameters are.
pub solve_stays_on_grid :
    (cfg : Solver) (proj : AsaProjection) (rows cols : ℕ)
    → 0 < rows
    → 0 < cols
    → let r = solve cfg proj rows cols in
      (pos 0 ≤ℤ r.dim1)
      × (r.dim1 ≤ℤ pos (cols * 0x400 - 1))
      × (pos 0 ≤ℤ r.dim2)
      × (r.dim2 ≤ℤ pos (rows * 0x400 - 1))
unfolding solve On
solve_stays_on_grid cfg proj rows cols hr hc = elim (Bool-cases cfg.use_triangle) [
  | inl t ↦
      rw (t, solve)
        (finish-On (solve_by_triangle proj.dim1 proj.peak_idx_dim1 9 cfg.tri_param_dim1)
          (solve_by_triangle proj.dim2 proj.peak_idx_dim2 9 cfg.tri_param_dim2) rows cols)
  | inr t ↦
      rw (t, solve) (finish-On (solve_by_gravity proj.dim1) (solve_by_gravity proj.dim2) rows cols)
]
