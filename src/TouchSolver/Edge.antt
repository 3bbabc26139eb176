-- ===== src/TouchSolver/Edge.antt =====
-- What a zone knows of the border of the grid: EdgeCompensation.h.
use ego_touch_rev.Prelude.{ℕ, Bool, false, ◌||◌, ltb, leb, ◌==◌, if◌then◌else◌, min, max}
use ego_touch_rev.Prelude.Int.{ℤ, pos, ◌+ℤ◌, ltb_ℤ}

-- The two bits of edgeFlags are `touches` for 0x20 and `near` for 0x80000.
pub record ZoneEdgeInfo : Type 0 where
  pub outer_col_sig_sum : ℤ
  pub inner_col_sig_sum : ℤ
  pub outer_row_sig_sum : ℤ
  pub inner_row_sig_sum : ℤ
  pub outer_col_max : ℤ
  pub inner_col_max : ℤ
  pub outer_row_max : ℤ
  pub inner_row_max : ℤ
  pub min_col : ℕ
  pub max_col : ℕ
  pub min_row : ℕ
  pub max_row : ℕ
  pub touches : Bool
  pub near : Bool

abbrev pub no_edge_info : ZoneEdgeInfo
no_edge_info = record {
  outer_col_sig_sum = pos 0;
  inner_col_sig_sum = pos 0;
  outer_row_sig_sum = pos 0;
  inner_row_sig_sum = pos 0;
  outer_col_max = pos 0;
  inner_col_max = pos 0;
  outer_row_max = pos 0;
  inner_row_max = pos 0;
  min_col = 255;
  max_col = 0;
  min_row = 255;
  max_row = 0;
  touches = false;
  near = false;
}

abbrev raise : Bool → ℤ → ℤ → ℤ
raise core old signal = if core then (if ltb_ℤ old signal then signal else old) else old

unfoldable pub update_cols : Bool → ℤ → ℕ → ZoneEdgeInfo → ZoneEdgeInfo
update_cols core signal col e =
    if (col == 0) || (col == 59)
    then record e {
      outer_col_sig_sum = e.outer_col_sig_sum +ℤ signal;
      outer_col_max = raise core e.outer_col_max signal;
    }
    else if (col == 1) || (col == 58)
    then record e {
      inner_col_sig_sum = e.inner_col_sig_sum +ℤ signal;
      inner_col_max = raise core e.inner_col_max signal;
    }
    else e

unfoldable pub update_rows : Bool → ℤ → ℕ → ZoneEdgeInfo → ZoneEdgeInfo
update_rows core signal row e =
    if (row == 0) || (row == 39)
    then record e {
      outer_row_sig_sum = e.outer_row_sig_sum +ℤ signal;
      outer_row_max = raise core e.outer_row_max signal;
    }
    else if (row == 1) || (row == 38)
    then record e {
      inner_row_sig_sum = e.inner_row_sig_sum +ℤ signal;
      inner_row_max = raise core e.inner_row_max signal;
    }
    else e

-- TZ_UpdateEdgeInfo; `core` stands for the flag mask 7, and its negation for 0.
unfoldable pub update_edge_info : Bool → ℤ → ℕ → ℕ → ZoneEdgeInfo → ZoneEdgeInfo
unfolding update_cols update_rows
update_edge_info core signal col row e =
    let e' = update_rows core signal row (update_cols core signal col e) in
    if core
    then record e' {
      min_col = min e'.min_col col;
      max_col = max e'.max_col col;
      min_row = min e'.min_row row;
      max_row = max e'.max_row row;
    }
    else e'

unfoldable pub get_edge_touched_flag : ZoneEdgeInfo → ZoneEdgeInfo
get_edge_touched_flag e = record e {
  touches = (leb e.min_col 0 || leb 59 e.max_col) || (leb e.min_row 0 || leb 39 e.max_row);
  near = (ltb e.min_col 2 || ltb 57 e.max_col) || (ltb e.min_row 2 || ltb 37 e.max_row);
}
