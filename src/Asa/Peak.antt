-- ===== src/Asa/Peak.antt =====
-- What FindPeak returns.
use ego_touch_rev.Prelude.{
  ℕ, zero, suc, ◌+◌, ◌<◌, ◌≡◌, List, Bool, true, length, ◌-◌, ◌&&◌, ltb, some, if◌then◌else◌,
}
use ego_touch_rev.Prelude.Int.{ℤ, pos, ltb_ℤ, ◌+ℤ◌, ◌≤ℤ◌}
use ego_touch_rev.Asa.{Detector, GridPeakUnit, cell, flood_fill}

-- The grid with a border of zeros: cell `(r, c)` stands at `(r + 1, c + 1)`.
unfoldable pub padded : List ℤ → ℕ → ℕ → ℤ
padded grid zero c = pos 0
padded grid (suc r) zero = pos 0
padded grid (suc r) (suc c) = if ltb r 9 && ltb c 9 then cell grid r c else pos 0

abbrev pub row_of_three : List ℤ → ℕ → ℕ → ℤ
row_of_three grid r c = padded grid r c +ℤ (padded grid r (c + 1) +ℤ padded grid r (c + 2))

-- The sum of the window of three rows around a cell.
abbrev pub window : List ℤ → ℕ → ℕ → ℤ
window grid r c =
    row_of_three grid r c +ℤ (row_of_three grid (r + 1) c +ℤ row_of_three grid (r + 2) c)

module _ (cfg : Detector) (grid : List ℤ) where
  -- A cell above the threshold that none of its four neighbours on the grid exceeds.
  pub record IsTop (r c : ℕ) : Type 0 where
    pub signal : ltb_ℤ cfg.noise_threshold (cell grid r c) ≡ true
    pub above : 0 < r → cell grid (r - 1) c ≤ℤ cell grid r c
    pub below : r < 8 → cell grid (r + 1) c ≤ℤ cell grid r c
    pub left : 0 < c → cell grid r (c - 1) ≤ℤ cell grid r c
    pub right : c < 8 → cell grid r (c + 1) ≤ℤ cell grid r c

  -- The unit describes a top of the grid: its place, its value, the sum of the window around it, and the
  -- number of cells of the region that a flood fill from it takes, which is below the limit.
  pub record Describes (u : GridPeakUnit) (r c : ℕ) : Type 0 where
    pub row : r < 9
    pub col : c < 9
    pub at_row : u.peak_row ≡ pos r
    pub at_col : u.peak_col ≡ pos c
    pub value : u.peak_value ≡ cell grid r c
    pub top : IsTop r c
    pub sum : u.neighbor_sum_3x3 ≡ window grid r c
    pub before : List Bool
    pub after : List Bool
    pub region : List (ℕ × ℕ)
    pub filled : flood_fill cfg grid before r c ≡ some (after, region)
    pub counted : u.connected_pixels ≡ length region
    pub limit : length region < cfg.max_connected

  record IsGood (u : GridPeakUnit) : Type 0 where
    good : u.valid ≡ true → (r : ℕ) × (c : ℕ) × Describes u r c
