-- ===== src/Peaks/Apart.antt =====
-- Two cells that are neighbours are not both local maxima.
use ego_touch_rev.Prelude.{
  ℕ, ◌+◌, ◌-◌, ◌*◌, ◌≤◌, ◌<◌, ◌≡◌, ◌⊎◌, inl, inr, arith, true, false, Bool, not, ◌&&◌,
}
use ego_touch_rev.Prelude.Int.{ℤ, ltb_ℤ, ◌≤ℤ◌}
use ego_touch_rev.Engine.{Heat}
use ego_touch_rev.Peaks.{Settings, thold_at, is_local_max}

module _ (cfg : Settings) (heat : Heat) where
  -- What the test says of each neighbour: those behind the cell in the scan are not above it.
  below_right :
      (r c : ℕ)
      → r < 39
      → c < 59
      → is_local_max cfg heat r c ≡ true
      → ltb_ℤ (heat r c) (heat (r + 1) (c + 1)) ≡ false
  unfolding is_local_max
  below_right r c h0 h1 m = ground arith

  below :
      (r c : ℕ)
      → r < 39
      → is_local_max cfg heat r c ≡ true
      → ltb_ℤ (heat r c) (heat (r + 1) c) ≡ false
  unfolding is_local_max
  below r c h0 m = ground arith

  below_left :
      (r c : ℕ)
      → r < 39
      → 0 < c
      → is_local_max cfg heat r c ≡ true
      → ltb_ℤ (heat r c) (heat (r + 1) (c - 1)) ≡ false
  unfolding is_local_max
  below_left r c h0 h1 m = ground arith

  right_of :
      (r c : ℕ)
      → c < 59
      → is_local_max cfg heat r c ≡ true
      → ltb_ℤ (heat r c) (heat r (c + 1)) ≡ false
  unfolding is_local_max
  right_of r c h0 m = ground arith

  -- Those before the cell in the scan are below it.
  left_of :
      (r c : ℕ)
      → 0 < c
      → is_local_max cfg heat r c ≡ true
      → ltb_ℤ (heat r (c - 1)) (heat r c) ≡ true
  unfolding is_local_max
  left_of r c h0 m = ground arith

  above_right :
      (r c : ℕ)
      → 0 < r
      → c < 59
      → is_local_max cfg heat r c ≡ true
      → ltb_ℤ (heat (r - 1) (c + 1)) (heat r c) ≡ true
  unfolding is_local_max
  above_right r c h0 h1 m = ground arith

  above :
      (r c : ℕ)
      → 0 < r
      → is_local_max cfg heat r c ≡ true
      → ltb_ℤ (heat (r - 1) c) (heat r c) ≡ true
  unfolding is_local_max
  above r c h0 m = ground arith

  above_left :
      (r c : ℕ)
      → 0 < r
      → 0 < c
      → is_local_max cfg heat r c ≡ true
      → ltb_ℤ (heat (r - 1) (c - 1)) (heat r c) ≡ true
  unfolding is_local_max
  above_left r c h0 h1 m = ground arith

  right_apart :
      (r c : ℕ)
      → c < 59
      → is_local_max cfg heat r c ≡ true
      → is_local_max cfg heat r (c + 1) ≡ true
      → ⊥
  right_apart r c h m m' =
      let e : c + 1 - 1 ≡ c = omega arith in
      let low = rw e at (left_of r (c + 1) (omega arith) m') in cc (low, right_of r c h m)

  below_apart :
      (r c : ℕ)
      → r < 39
      → is_local_max cfg heat r c ≡ true
      → is_local_max cfg heat (r + 1) c ≡ true
      → ⊥
  below_apart r c h m m' =
      let e : r + 1 - 1 ≡ r = omega arith in
      let low = rw e at (above (r + 1) c (omega arith) m') in cc (low, below r c h m)

  below_right_apart :
      (r c : ℕ)
      → r < 39
      → c < 59
      → is_local_max cfg heat r c ≡ true
      → is_local_max cfg heat (r + 1) (c + 1) ≡ true
      → ⊥
  below_right_apart r c h k m m' =
      let e : r + 1 - 1 ≡ r = omega arith in
      let d : c + 1 - 1 ≡ c = omega arith in
      let low = rw (e, d) at (above_left (r + 1) (c + 1) (omega arith) (omega arith) m') in
      cc (low, below_right r c h k m)

  below_left_apart :
      (r c : ℕ)
      → r < 39
      → c < 59
      → is_local_max cfg heat r (c + 1) ≡ true
      → is_local_max cfg heat (r + 1) c ≡ true
      → ⊥
  below_left_apart r c h k m m' =
      let e : r + 1 - 1 ≡ r = omega arith in
      let d : c + 1 - 1 ≡ c = omega arith in
      let low = rw e at (above_right (r + 1) c (omega arith) k m') in
      cc (low, rw d at (below_left r (c + 1) h (omega arith) m))

  -- The cell `(r', c')` comes later in the scan.
  pub local_maxima_apart :
      (r c r' c' : ℕ)
      → r' < 40
      → c < 60
      → c' < 60
      → 60 * r + c < 60 * r' + c'
      → r' ≤ r + 1
      → c ≤ c' + 1
      → c' ≤ c + 1
      → is_local_max cfg heat r c ≡ true
      → is_local_max cfg heat r' c' ≡ true
      → ⊥
  local_maxima_apart r c r' c' hr hc hc' later near left right m m' = elim place [
    | inl (er, ec) ↦ right_apart r c (omega arith) m (rw (er, ec) at m')
    | inr (inl (er, ec)) ↦ below_apart r c (omega arith) m (rw (er, ec) at m')
    | inr (inr (inl (er, ec))) ↦
        below_right_apart r c (omega arith) (omega arith) m (rw (er, ec) at m')
    | inr (inr (inr (er, ec))) ↦
        below_left_apart r c' (omega arith) (omega arith) (rw ec at m) (rw er at m')
  ]
    where
      place :
          ((r' ≡ r) × (c' ≡ c + 1))
          ⊎ (((r' ≡ r + 1) × (c' ≡ c))
              ⊎ (((r' ≡ r + 1) × (c' ≡ c + 1)) ⊎ ((r' ≡ r + 1) × (c ≡ c' + 1))))
      place = omega arith

  le_of_not_lt : (a b : ℤ) → ltb_ℤ a b ≡ false → b ≤ℤ a
  le_of_not_lt a b h = ground arith

  pub local_max_threshold :
      (r c : ℕ) → is_local_max cfg heat r c ≡ true → thold_at cfg r c ≤ℤ heat r c
  unfolding is_local_max
  local_max_threshold r c m = le_of_not_lt (heat r c) (thold_at cfg r c) (first _ _ m)
    where
      first : (a b : Bool) → not a && b ≡ true → a ≡ false
      first a b h = ground arith

  pub local_max_is_largest :
      (r c r' c' : ℕ)
      → r < 40
      → c < 60
      → r' < 40
      → c' < 60
      → r' ≤ r + 1
      → r ≤ r' + 1
      → c' ≤ c + 1
      → c ≤ c' + 1
      → is_local_max cfg heat r c ≡ true
      → heat r' c' ≤ℤ heat r c
  local_max_is_largest r c r' c' hr hc hr' hc' a b d e m = elim row [
    | inl er ↦ elim column [
      | inl ec ↦ rw (er, ec) (ground (arith, below_right r c (omega arith) (omega arith) m))
      | inr (inl ec) ↦ rw (er, ec) (ground (arith, below r c (omega arith) m))
      | inr (inr ec) ↦ rw (er, ec.0) (ground (arith, below_left r c (omega arith) (omega arith) m))
    ]
    | inr (inl er) ↦ elim column [
      | inl ec ↦ rw (er, ec) (ground (arith, right_of r c (omega arith) m))
      | inr (inl ec) ↦ rw (er, ec) (omega arith)
      | inr (inr ec) ↦ rw (er, ec.0) (ground (arith, left_of r c (omega arith) m))
    ]
    | inr (inr er) ↦ elim column [
      | inl ec ↦ rw (er.0, ec) (ground (arith, above_right r c (omega arith) (omega arith) m))
      | inr (inl ec) ↦ rw (er.0, ec) (ground (arith, above r c (omega arith) m))
      | inr (inr ec) ↦
          rw (er.0, ec.0) (ground (arith, above_left r c (omega arith) (omega arith) m))
    ]
  ]
    where
      row : (r' ≡ r + 1) ⊎ ((r' ≡ r) ⊎ ((r' ≡ r - 1) × (0 < r)))
      row = omega arith

      column : (c' ≡ c + 1) ⊎ ((c' ≡ c) ⊎ ((c' ≡ c - 1) × (0 < c)))
      column = omega arith
