-- ===== src/Asa/Triangle.antt =====
-- The coordinates stay in their cells and on the grid.
use native.Mathlib.Nat.{div-lt_iff_lt-mul}
use ego_touch_rev.Prelude.{
  ℕ, ◌+◌, ◌-◌, ◌*◌, ◌/◌, ◌<◌, ◌≤◌, ◌≡◌, refl, arith, inl, inr, true, false, Bool-cases,
}
use ego_touch_rev.Prelude.Int.{
  quot, ℤ, pos, pos_part, neg_part, ◌+ℤ◌, ◌-ℤ◌, ◌*ℤ◌, ◌≤ℤ◌, ltb_ℤ, int_laws,
}
use ego_touch_rev.Asa.Coordinate.{share, triangle_alg_using_3_point}

div-share : (a b : ℕ) → a ≤ b → 1 ≤ b → a * 1024 / b < 1025
div-share a b le one = (div-lt_iff_lt-mul {k = b} {x = a * 1024} {y = 1025} one).1 (omega arith)

times-unit : (a : ℕ) → pos a *ℤ pos 1024 ≡ pos (a * 1024)
unfolding ◌*ℤ◌
times-unit a = ground arith

-- The difference of integers in order, as a number.
gap : ℤ → ℤ → ℕ
gap u v = pos_part u + neg_part v - (neg_part u + pos_part v)

diff-gap : (u v : ℤ) → v ≤ℤ u → u -ℤ v ≡ pos (gap u v)
unfolding gap ◌-ℤ◌
diff-gap u v h = ground arith

-- The divisor and the dividend of `share` are numbers, the dividend the smaller one.
ratio :
    (p high low : ℤ)
    → low ≤ℤ high
    → high ≤ℤ p
    → ltb_ℤ low p ≡ true
    → quot (quot ((high -ℤ low) *ℤ pos 1024) (p -ℤ low)) (pos 2)
      ≡ pos (gap high low * 1024 / gap p low / 2)
unfolding quot
ratio p high low h k m =
    rw (diff-gap high low h, diff-gap p low (omega (arith, h, k)), times-unit (gap high low)) refl

gap-le : (p high low : ℤ) → low ≤ℤ high → high ≤ℤ p → gap high low ≤ gap p low
unfolding gap
gap-le p high low h k = omega arith

gap-pos : (p low : ℤ) → ltb_ℤ low p ≡ true → 1 ≤ gap p low
unfolding gap
gap-pos p low m = ground arith

ratio-bound :
    (p high low : ℤ)
    → low ≤ℤ high
    → high ≤ℤ p
    → ltb_ℤ low p ≡ true
    → let s = quot (quot ((high -ℤ low) *ℤ pos 1024) (p -ℤ low)) (pos 2) in
      (pos 0 ≤ℤ s) × (s ≤ℤ pos 512)
ratio-bound p high low h k m =
    let small = div-share (gap high low) (gap p low) (gap-le p high low h k) (gap-pos p low m) in
    rw (ratio p high low h k m) (omega arith, omega (arith, small))

pred-below : (p : ℤ) → ltb_ℤ (p -ℤ pos 1) p ≡ true
unfolding ◌-ℤ◌
pred-below p = ground arith

pred-le : (p low high : ℤ) → ltb_ℤ low p ≡ false → low ≤ℤ high → p -ℤ pos 1 ≤ℤ high
unfolding ◌-ℤ◌
pred-le p low high m h = ground arith

share-bound :
    (p low high : ℤ)
    → low ≤ℤ high
    → high ≤ℤ p
    → (pos 0 ≤ℤ share p low high) × (share p low high ≤ℤ pos 512)
share-bound p low high h k = elim (Bool-cases (ltb_ℤ low p)) [
  | inl m ↦ rw m (ratio-bound p high low h k m)
  | inr m ↦ rw m (ratio-bound p high (p -ℤ pos 1) (pred-le p low high m h) k (pred-below p))
]

-- A higher neighbour that is below the peak has a share of less than half a cell.
below_half : (a b : ℕ) → a < b → a * 1024 / b < 1024
below_half a b less =
    (div-lt_iff_lt-mul {k = b} {x = a * 1024} {y = 1024} (omega arith)).1 (omega arith)

gap-lt : (p high low : ℤ) → low ≤ℤ high → ltb_ℤ high p ≡ true → gap high low < gap p low
unfolding gap
gap-lt p high low h k = ground arith

le_of_ltb : (a b : ℤ) → ltb_ℤ a b ≡ true → a ≤ℤ b
le_of_ltb a b h = ground arith

ltb-le_trans : (a b c : ℤ) → a ≤ℤ b → ltb_ℤ b c ≡ true → ltb_ℤ a c ≡ true
ltb-le_trans a b c h k = ground arith

share-lt : (p low high : ℤ) → low ≤ℤ high → ltb_ℤ high p ≡ true → share p low high ≤ℤ pos 511
share-lt p low high h k =
    let m = ltb-le_trans low high p h k in
    let small = below_half (gap high low) (gap p low) (gap-lt p high low h k) in
    rw (m, ratio p high low h (le_of_ltb high p k) m) (omega (arith, small))

left-half :
    (s : ℤ)
    → pos 0 ≤ℤ s
    → s ≤ℤ pos 512
    → (pos 0 ≤ℤ pos 0 -ℤ s +ℤ pos 512) × (pos 0 -ℤ s +ℤ pos 512 ≤ℤ pos 512)
left-half s h k = (omega int_laws, omega int_laws)

right-half :
    (s : ℤ) (top : ℕ)
    → pos 0 ≤ℤ s
    → s ≤ℤ pos top
    → (pos 512 ≤ℤ s +ℤ pos 512) × (s +ℤ pos 512 ≤ℤ pos (top + 512))
right-half s top h k = (omega int_laws, omega int_laws)

in-order : (l r : ℤ) → ltb_ℤ r l ≡ true → r ≤ℤ l
in-order l r h = ground arith

not-in-order : (l r : ℤ) → ltb_ℤ r l ≡ false → l ≤ℤ r
not-in-order l r h = ground arith

not-below : (r p : ℤ) → r ≤ℤ p → ltb_ℤ r p ≡ false → r ≡ p
not-below r p h k = ground arith

-- Where an offset within a cell lies: in the first half when the left neighbour is the higher one, in
-- the second half when it is not, and at the far end of the cell only when the right neighbour is as high
-- as the peak.
pub data Offset (l p r v : ℤ) : Type 0 where
  to_left : ltb_ℤ r l ≡ true → pos 0 ≤ℤ v → v ≤ℤ pos 512 → Offset l p r v
  to_right : ltb_ℤ r l ≡ false → pos 512 ≤ℤ v → v ≤ℤ pos 1023 → Offset l p r v
  tie : r ≡ p → pos 512 ≤ℤ v → v ≤ℤ pos 1024 → Offset l p r v

-- The offset that three values of a line give, whose middle one is not below the other two.
pub triangle-Offset :
    (l p r : ℤ) → l ≤ℤ p → r ≤ℤ p → Offset l p r (triangle_alg_using_3_point l p r)
unfolding triangle_alg_using_3_point
triangle-Offset l p r hl hr = elim (Bool-cases (ltb_ℤ r l)) [
  | inl t ↦
      let (low, high) = share-bound p r l (in-order l r t) hl in
      let (from, to) = left-half (share p r l) low high in
      rw (t, triangle_alg_using_3_point) (Offset.to_left t from to)
  | inr t ↦
      let (low, high) = share-bound p l r (not-in-order l r t) hr in
      elim (Bool-cases (ltb_ℤ r p)) [
        | inl u ↦
            let (from, to) =
              right-half (share p l r) 511 low (share-lt p l r (not-in-order l r t) u) in
            rw (t, triangle_alg_using_3_point) (Offset.to_right t from to)
        | inr u ↦
            let (from, to) = right-half (share p l r) 512 low high in
            rw (t, triangle_alg_using_3_point) (Offset.tie (not-below r p hr u) from to)
      ]
]
