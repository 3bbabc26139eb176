-- ===== src/Preprocessing/Gaussian.antt =====
-- GaussianFilter.cpp: a weighted mean of every inner cell and its neighbours.
use native.Mathlib.Nat.{le-div_iff_mul-le, mul-le-mul_right, add-mul}
use ego_touch_rev.Prelude.{
  ℕ, suc, ◌+◌, ◌-◌, ◌*◌, ◌/◌, ◌≤◌, ◌<◌, ◌≡◌, arith, Bool, true, ◌&&◌, ltb, if◌then◌else◌,
}
use ego_touch_rev.Prelude.Int.{
  int_laws, ℤ, pos, negsuc, pos_part, neg_part, ◌+ℤ◌, ◌-ℤ◌, ◌*ℤ◌, ◌≤ℤ◌, quot, wrap16, IsInt16,
  wrap16-IsInt16, wrap32, IsInt32, wrap32-IsInt32,
}
use ego_touch_rev.Engine.{Heat}

-- The sum of the nine products, without a bound.
abbrev pub weighted_sum : ℤ → Heat → ℕ → ℕ → ℤ
weighted_sum weight old y x =
    old (y - 1) (x - 1)
    +ℤ old (y - 1) x *ℤ pos 2
    +ℤ old (y - 1) (x + 1)
    +ℤ old y (x - 1) *ℤ pos 2
    +ℤ old y x *ℤ weight
    +ℤ old y (x + 1) *ℤ pos 2
    +ℤ old (y + 1) (x - 1)
    +ℤ old (y + 1) x *ℤ pos 2
    +ℤ old (y + 1) (x + 1)

-- The same in the `int32_t` of the loop.
unfoldable pub kernel : ℤ → Heat → ℕ → ℕ → ℤ
unfolding wrap32
kernel weight old y x = wrap32 (weighted_sum weight old y x)

-- `m_temp` is the old matrix; the cells of the border keep their values.
unfoldable pub process_gaussian : Bool → ℤ → Heat → Heat
unfolding quot wrap16 kernel
process_gaussian enabled weight old y x =
    if enabled && ((ltb 0 y && ltb y 39) && (ltb 0 x && ltb x 59))
    then wrap16 (quot (kernel weight old y x) (pos 12 +ℤ weight))
    else old y x

times_parts :
    (a : ℤ) (w : ℕ)
    → (pos_part (a *ℤ pos w) ≡ pos_part a * w) × (neg_part (a *ℤ pos w) ≡ neg_part a * w)
unfolding ◌*ℤ◌
times_parts (pos n) w = (grind arith, grind arith)
times_parts (negsuc n) w = (grind arith, grind arith)

mul_add : (a w : ℕ) → a * (12 + w) ≡ a * 12 + a * w
mul_add a w = grind arith

zero_mul : (k : ℕ) → 0 * k ≡ 0
zero_mul k = grind arith

mul_pos : (a k : ℕ) → 0 < k → 0 < suc a * k
mul_pos a k h = grind arith

pub div_bound : (n l k : ℕ) → 0 < k → n ≤ l * k → n / k ≤ l
div_bound n l k h e = grind arith

times_mono : (a b : ℤ) (w : ℕ) → a ≤ℤ b → a *ℤ pos w ≤ℤ b *ℤ pos w
times_mono a b w h = omega (
  arith,
  times_parts a w,
  times_parts b w,
  mul-le-mul_right {m = pos_part a + neg_part b} {n = pos_part b + neg_part a} w h,
  add-mul (pos_part a) (neg_part b) w,
  add-mul (pos_part b) (neg_part a) w,
)

quot-ge : (s lo : ℤ) (k : ℕ) → 0 < k → lo *ℤ pos k ≤ℤ s → lo ≤ℤ quot s (pos k)
unfolding quot ◌-ℤ◌
quot-ge (pos n) (pos l) k h e =
    omega (
      arith,
      (le-div_iff_mul-le {k = k} {x = l} {y = n} h).1 (omega (arith, times_parts (pos l) k)),
    )
quot-ge (pos n) (negsuc l) k h e = omega arith
quot-ge (negsuc n) (pos l) k h e = absurd (omega (arith, times_parts (pos l) k, zero_mul k))
quot-ge (negsuc n) (negsuc l) k h e =
    ground
      (arith, div_bound (suc n) (suc l) k h (omega (arith, times_parts (negsuc l) k, zero_mul k)))

quot-le : (s hi : ℤ) (k : ℕ) → 0 < k → s ≤ℤ hi *ℤ pos k → quot s (pos k) ≤ℤ hi
unfolding quot ◌-ℤ◌
quot-le (pos n) (pos l) k h e =
    omega (arith, div_bound n l k h (omega (arith, times_parts (pos l) k, zero_mul k)))
quot-le (pos n) (negsuc l) k h e =
    absurd (omega (arith, times_parts (negsuc l) k, zero_mul k, mul_pos l k h))
quot-le (negsuc n) (pos l) k h e = ground arith
quot-le (negsuc n) (negsuc l) k h e = ground (
  arith,
  (le-div_iff_mul-le {k = k} {x = suc l} {y = suc n} h).1
      (omega (arith, times_parts (negsuc l) k, zero_mul k)),
)

between-IsInt16 : (lo hi v : ℤ) → IsInt16 lo → IsInt16 hi → lo ≤ℤ v → v ≤ℤ hi → IsInt16 v
between-IsInt16 lo (pos h) (pos v) a b l k = omega arith
between-IsInt16 lo (negsuc h) (pos v) a b l k = absurd (omega arith)
between-IsInt16 (pos l) hi (negsuc v) a b e k = absurd (omega arith)
between-IsInt16 (negsuc l) hi (negsuc v) a b e k = omega arith

-- The nine cells under the kernel lie between two values.
abbrev pub Between : Heat → ℕ → ℕ → ℤ → ℤ → Type 0
Between old y x lo hi =
    (r c : ℕ) → r ≤ y + 1 → y ≤ r + 1 → c ≤ x + 1 → x ≤ c + 1 → (lo ≤ℤ old r c) × (old r c ≤ℤ hi)

weighted_ge :
    (a b c d e f g h i bound : ℤ) (w : ℕ)
    → bound ≤ℤ a
    → bound ≤ℤ b
    → bound ≤ℤ c
    → bound ≤ℤ d
    → bound ≤ℤ e
    → bound ≤ℤ f
    → bound ≤ℤ g
    → bound ≤ℤ h
    → bound ≤ℤ i
    → bound *ℤ pos (12 + w)
      ≤ℤ a +ℤ b *ℤ pos 2 +ℤ c +ℤ d *ℤ pos 2 +ℤ e *ℤ pos w +ℤ f *ℤ pos 2 +ℤ g +ℤ h *ℤ pos 2 +ℤ i
weighted_ge a b c d e f g h i bound w ha hb hc hd he hf hg hh hi = omega (
  int_laws,
  times_parts bound (12 + w),
  times_parts bound w,
  mul_add (pos_part bound) w,
  mul_add (neg_part bound) w,
  times_mono bound e w he,
  times_parts b 2,
  times_parts d 2,
  times_parts f 2,
  times_parts h 2,
)

weighted_le :
    (a b c d e f g h i bound : ℤ) (w : ℕ)
    → a ≤ℤ bound
    → b ≤ℤ bound
    → c ≤ℤ bound
    → d ≤ℤ bound
    → e ≤ℤ bound
    → f ≤ℤ bound
    → g ≤ℤ bound
    → h ≤ℤ bound
    → i ≤ℤ bound
    → a +ℤ b *ℤ pos 2 +ℤ c +ℤ d *ℤ pos 2 +ℤ e *ℤ pos w +ℤ f *ℤ pos 2 +ℤ g +ℤ h *ℤ pos 2 +ℤ i
      ≤ℤ bound *ℤ pos (12 + w)
weighted_le a b c d e f g h i bound w ha hb hc hd he hf hg hh hi = omega (
  int_laws,
  times_parts bound (12 + w),
  times_parts bound w,
  mul_add (pos_part bound) w,
  mul_add (neg_part bound) w,
  times_mono e bound w he,
  times_parts b 2,
  times_parts d 2,
  times_parts f 2,
  times_parts h 2,
)

module _ (w : ℕ) (old : Heat) (y x : ℕ) (row : (0 < y) × (y < 39)) (col : (0 < x) × (x < 59))
    (lo hi : ℤ) (near : Between old y x lo hi) where
  weighted_sum-ge : lo *ℤ pos (12 + w) ≤ℤ weighted_sum (pos w) old y x
  weighted_sum-ge =
      weighted_ge (old (y - 1) (x - 1)) (old (y - 1) x) (old (y - 1) (x + 1)) (old y (x - 1))
        (old y x) (old y (x + 1)) (old (y + 1) (x - 1)) (old (y + 1) x) (old (y + 1) (x + 1)) lo w
        (near (y - 1) (x - 1) (omega arith) (omega arith) (omega arith) (omega arith)).0
        (near (y - 1) x (omega arith) (omega arith) (omega arith) (omega arith)).0
        (near (y - 1) (x + 1) (omega arith) (omega arith) (omega arith) (omega arith)).0
        (near y (x - 1) (omega arith) (omega arith) (omega arith) (omega arith)).0
        (near y x (omega arith) (omega arith) (omega arith) (omega arith)).0
        (near y (x + 1) (omega arith) (omega arith) (omega arith) (omega arith)).0
        (near (y + 1) (x - 1) (omega arith) (omega arith) (omega arith) (omega arith)).0
        (near (y + 1) x (omega arith) (omega arith) (omega arith) (omega arith)).0
        (near (y + 1) (x + 1) (omega arith) (omega arith) (omega arith) (omega arith)).0

  weighted_sum-le : weighted_sum (pos w) old y x ≤ℤ hi *ℤ pos (12 + w)
  weighted_sum-le =
      weighted_le (old (y - 1) (x - 1)) (old (y - 1) x) (old (y - 1) (x + 1)) (old y (x - 1))
        (old y x) (old y (x + 1)) (old (y + 1) (x - 1)) (old (y + 1) x) (old (y + 1) (x + 1)) hi w
        (near (y - 1) (x - 1) (omega arith) (omega arith) (omega arith) (omega arith)).1
        (near (y - 1) x (omega arith) (omega arith) (omega arith) (omega arith)).1
        (near (y - 1) (x + 1) (omega arith) (omega arith) (omega arith) (omega arith)).1
        (near y (x - 1) (omega arith) (omega arith) (omega arith) (omega arith)).1
        (near y x (omega arith) (omega arith) (omega arith) (omega arith)).1
        (near y (x + 1) (omega arith) (omega arith) (omega arith) (omega arith)).1
        (near (y + 1) (x - 1) (omega arith) (omega arith) (omega arith) (omega arith)).1
        (near (y + 1) x (omega arith) (omega arith) (omega arith) (omega arith)).1
        (near (y + 1) (x + 1) (omega arith) (omega arith) (omega arith) (omega arith)).1

-- The sum of the kernel's weights.
kernel_sum : (w : ℕ) → pos 12 +ℤ pos w ≡ pos (12 + w)
unfolding ◌+ℤ◌
kernel_sum w = ground arith

inner_test :
    (y x : ℕ)
    → 0 < y
    → y < 39
    → 0 < x
    → x < 59
    → (ltb 0 y && ltb y 39) && (ltb 0 x && ltb x 59) ≡ true
inner_test y x a b c d = ground arith

-- Sums that lie between the products of two values of 16 bits and of the kernel's weights.
fits :
    (lo hi s : ℤ) (k : ℕ)
    → k < 65536
    → IsInt16 lo
    → IsInt16 hi
    → lo *ℤ pos k ≤ℤ s
    → s ≤ℤ hi *ℤ pos k
    → IsInt32 s
fits lo (pos h) (pos n) k small a b l u =
    omega (arith, times_parts (pos h) k, mul-le-mul_right {m = h} {n = 32767} k (omega arith))
fits lo (negsuc h) (pos n) k small a b l u = omega (arith, times_parts (negsuc h) k, zero_mul k)
fits (pos h) hi (negsuc n) k small a b l u =
    absurd (omega (arith, times_parts (pos h) k, zero_mul k))
fits (negsuc h) hi (negsuc n) k small a b l u = omega (
  arith,
  times_parts (negsuc h) k,
  zero_mul k,
  mul-le-mul_right {m = suc h} {n = 32768} k (omega arith),
)

-- A filtered inner cell stays between the smallest and the largest value under the kernel, for every
-- centre weight from 0 to 65523. The weights of the settings, from 1 to 30, are among them.
pub smoothing_stays_between :
    (w : ℕ) (old : Heat) (y x : ℕ) (lo hi : ℤ)
    → w ≤ 65523
    → 0 < y
    → y < 39
    → 0 < x
    → x < 59
    → IsInt16 lo
    → IsInt16 hi
    → Between old y x lo hi
    → (lo ≤ℤ process_gaussian true (pos w) old y x) × (process_gaussian true (pos w) old y x ≤ℤ hi)
unfolding process_gaussian kernel
smoothing_stays_between w old y x lo hi small a b c d low high near =
    let sum = weighted_sum (pos w) old y x in
    let above = weighted_sum-ge w old y x (a, b) (c, d) lo hi near in
    let below = weighted_sum-le w old y x (a, b) (c, d) lo hi near in
    let mean = quot sum (pos (12 + w)) in
    let ge : lo ≤ℤ mean = quot-ge sum lo (12 + w) (omega arith) above in
    let le : mean ≤ℤ hi = quot-le sum hi (12 + w) (omega arith) below in
    rw
      (
        inner_test y x a b c d,
        kernel_sum w,
        wrap32-IsInt32 sum (fits lo hi sum (12 + w) (omega arith) low high above below),
        wrap16-IsInt16 mean (between-IsInt16 lo hi mean low high ge le),
      )
      (ge, le)
