-- ===== src/TouchSolver/Size.antt =====
-- TouchSize.cpp: a radius from the sum of a zone's signals.
use mathlib.Core.Path.{subst}
use native.Mathlib.Decide.{ℕ_discrete}
use native.Mathlib.Nat.{mul-le-mul_left, mul-le-mul_right, le_trans}
use ego_touch_rev.Prelude.{
  ℕ, zero, suc, ◌+◌, ◌-◌, ◌*◌, ◌≤◌, ◌<◌, ◌≡◌, refl, sym, ◌∙◌, arith, true, false, not, leb,
  if◌then◌else◌, ap, Bool-cases, inl, inr, ◌⊎◌,
}
use ego_touch_rev.Prelude.Int.{ℤ, pos, negsuc, ◌*ℤ◌, ◌≤ℤ◌, ltb_ℤ, wrap32, IsInt32, wrap32-IsInt32}

unfoldable pub radius_threshold : ℤ → ℕ → ℤ
unfolding wrap32
radius_threshold scale r = wrap32 (scale *ℤ pos (r * (r + r * r)))

-- The loop of GetSizeInMM at radius `r`, with the rounds that are left.
unfoldable pub grow_radius : ℤ → ℤ → ℕ → ℕ → ℕ
unfolding radius_threshold
grow_radius scale shifted zero r = r
grow_radius scale shifted (suc n) r =
    let rest = grow_radius scale shifted n (r + 1) in
    if ltb_ℤ shifted (radius_threshold scale r) then r else rest

-- `m_unitPerSigMm2` is `scale`, and `<< 10` a product by 1024 that wraps.
unfoldable pub get_size_in_mm : ℤ → ℤ → ℕ
unfolding wrap32
get_size_in_mm sig_sum scale =
    if not (ltb_ℤ sig_sum (pos 0x200000))
    then 0xFF
    else grow_radius scale (wrap32 (sig_sum *ℤ pos 1024)) 14 1

-- The radius of a contact in TouchSizeCalculator::Process, with the fallback.
unfoldable pub contact_size : ℕ → ℤ → ℤ → ℕ
contact_size fallback sig_sum scale =
    let size = get_size_in_mm sig_sum scale in if leb size 0 then fallback else size

shift_bound :
    (sig_sum : ℤ)
    → negsuc 0x1FFFFF ≤ℤ sig_sum
    → sig_sum ≤ℤ pos 0x1FFFFF
    → IsInt32 (sig_sum *ℤ pos 1024)
unfolding ◌*ℤ◌
shift_bound (pos n) h k = ground arith
shift_bound (negsuc n) h k = ground arith

small_sum :
    (scale sig_sum : ℤ)
    → negsuc 0x1FFFFF ≤ℤ sig_sum
    → sig_sum ≤ℤ pos 0x1FFFFF
    → get_size_in_mm sig_sum scale ≡ grow_radius scale (sig_sum *ℤ pos 1024) 14 1
unfolding get_size_in_mm
small_sum scale sig_sum h k =
    let t : ltb_ℤ sig_sum (pos 0x200000) ≡ true = ground arith in
    rw (t, wrap32-IsInt32 (sig_sum *ℤ pos 1024) (shift_bound sig_sum h k)) refl

fallback_unused :
    (fallback : ℕ) (scale sig_sum : ℤ)
    → 1 ≤ get_size_in_mm sig_sum scale
    → contact_size fallback sig_sum scale ≡ get_size_in_mm sig_sum scale
unfolding contact_size
fallback_unused fallback scale sig_sum h =
    let t : leb (get_size_in_mm sig_sum scale) 0 ≡ false = ground arith in rw t refl

le_of_not_lt : (a b : ℤ) → ltb_ℤ a b ≡ false → b ≤ℤ a
le_of_not_lt a b h = ground arith

module _ (scale shifted : ℤ) where
  grow_radius-range :
      (n r : ℕ) → (r ≤ grow_radius scale shifted n r) × (grow_radius scale shifted n r ≤ r + n)
  unfolding grow_radius
  grow_radius-range zero r = (omega arith, omega arith)
  grow_radius-range (suc n) r = ground (arith, grow_radius-range n (r + 1))

  grow_radius-stop :
      (n r : ℕ)
      → ltb_ℤ shifted (radius_threshold scale r) ≡ true
      → grow_radius scale shifted (suc n) r ≡ r
  unfolding grow_radius
  grow_radius-stop n r t = rw t refl

  grow_radius-on :
      (n r : ℕ)
      → ltb_ℤ shifted (radius_threshold scale r) ≡ false
      → grow_radius scale shifted (suc n) r ≡ grow_radius scale shifted n (r + 1)
  unfolding grow_radius
  grow_radius-on n r t = rw t refl

  grow_radius-above :
      (n r k : ℕ)
      → grow_radius scale shifted n r ≡ k
      → k < r + n
      → ltb_ℤ shifted (radius_threshold scale k) ≡ true
  grow_radius-above zero r k e h = absurd (omega (arith, grow_radius-range zero r))
  grow_radius-above (suc n) r k e h = elim (Bool-cases (ltb_ℤ shifted (radius_threshold scale r))) [
    | inl t ↦
        subst (λ j. ltb_ℤ shifted (radius_threshold scale j) ≡ true)
          (sym (grow_radius-stop n r t) ∙ e) t
    | inr t ↦ grow_radius-above n (r + 1) k (sym (grow_radius-on n r t) ∙ e) (omega arith)
  ]

  grow_radius-below :
      (n r k : ℕ)
      → r ≤ k
      → k < grow_radius scale shifted n r
      → ltb_ℤ shifted (radius_threshold scale k) ≡ false
  grow_radius-below zero r k h l = absurd (omega (arith, grow_radius-range zero r))
  grow_radius-below (suc n) r k h l = elim (Bool-cases (ltb_ℤ shifted (radius_threshold scale r))) [
    | inl t ↦ absurd (omega (arith, grow_radius-stop n r t))
    | inr t ↦ elim (ℕ_discrete r k) [
      | yes e ↦ subst (λ j. ltb_ℤ shifted (radius_threshold scale j) ≡ false) e t
      | no d ↦ grow_radius-below n (r + 1) k (omega arith) (omega (arith, grow_radius-on n r t))
    ]
  ]

reached :
    (scale shifted : ℤ) (s : ℕ)
    → s ≡ grow_radius scale shifted 14 1
    → (s ≡ 1) ⊎ (radius_threshold scale (s - 1) ≤ℤ shifted)
reached scale shifted s e = elim (ℕ_discrete s 1) [
  | yes one ↦ inl one
  | no more ↦ inr (
      le_of_not_lt shifted (radius_threshold scale (s - 1)) (
        grow_radius-below scale shifted 14 1 (s - 1)
          (omega (arith, grow_radius-range scale shifted 14 1))
          (omega (arith, grow_radius-range scale shifted 14 1))))
]

exceeded :
    (scale shifted : ℤ) (s : ℕ)
    → s ≡ grow_radius scale shifted 14 1
    → (s ≡ 15) ⊎ (ltb_ℤ shifted (radius_threshold scale s) ≡ true)
exceeded scale shifted s e = elim (ℕ_discrete s 15) [
  | yes last ↦ inl last
  | no more ↦ inr (
      grow_radius-above scale shifted 14 1 s (sym e)
        (omega (arith, grow_radius-range scale shifted 14 1)))
]

-- The threshold of a radius without a bound.
abbrev pub volume : ℕ → ℕ → ℤ
volume scale r = pos (scale * (r * (r + r * r)))

weight_bound : (r : ℕ) → r ≤ 14 → r * (r + r * r) ≤ 2940
weight_bound r h =
    let square : r * r ≤ 14 * 14 =
      le_trans (mul-le-mul_right {m = r} {n = 14} r h) (mul-le-mul_left {m = r} {n = 14} 14 h) in
    le_trans (mul-le-mul_right {m = r} {n = 14} (r + r * r) h)
      (mul-le-mul_left {m = r + r * r} {n = 210} 14 (omega (arith, square)))

volume_bound : (scale r : ℕ) → scale ≤ 700000 → r ≤ 14 → scale * (r * (r + r * r)) < 2147483648
volume_bound scale r h k =
    omega (arith, mul-le-mul_right {m = scale} {n = 700000} (r * (r + r * r)) h, weight_bound r k)

times_pos : (a b : ℕ) → pos a *ℤ pos b ≡ pos (a * b)
unfolding ◌*ℤ◌
times_pos a b = grind arith

radius_threshold-volume :
    (scale r : ℕ) → scale ≤ 700000 → r ≤ 14 → radius_threshold (pos scale) r ≡ volume scale r
unfolding radius_threshold
radius_threshold-volume scale r h k =
    ap wrap32 (times_pos scale (r * (r + r * r)))
    ∙ wrap32-IsInt32 (volume scale r) (volume_bound scale r h k)

-- The size in exact integers: a radius from 1 to 15, whose own volume is above the shifted sum unless it
-- is 15, and where the volume of the radius below it is not, unless it is 1.
pub record Fitting (scale : ℕ) (sig_sum : ℤ) (s : ℕ) : Type 0 where
  pub above_0 : 1 ≤ s
  pub to_15 : s ≤ 15
  pub reached : (s ≡ 1) ⊎ (volume scale (s - 1) ≤ℤ sig_sum *ℤ pos 1024)
  pub exceeded : (s ≡ 15) ⊎ (ltb_ℤ (sig_sum *ℤ pos 1024) (volume scale s) ≡ true)

exact_reached :
    (scale : ℕ) (shifted : ℤ) (s : ℕ)
    → scale ≤ 700000
    → s ≤ 15
    → (s ≡ 1) ⊎ (radius_threshold (pos scale) (s - 1) ≤ℤ shifted)
    → (s ≡ 1) ⊎ (volume scale (s - 1) ≤ℤ shifted)
exact_reached scale shifted s h k (inl e) = inl e
exact_reached scale shifted s h k (inr l) =
    inr (subst (λ v. v ≤ℤ shifted) (radius_threshold-volume scale (s - 1) h (omega arith)) l)

exact_exceeded :
    (scale : ℕ) (shifted : ℤ) (s : ℕ)
    → scale ≤ 700000
    → s ≤ 15
    → (s ≡ 15) ⊎ (ltb_ℤ shifted (radius_threshold (pos scale) s) ≡ true)
    → (s ≡ 15) ⊎ (ltb_ℤ shifted (volume scale s) ≡ true)
exact_exceeded scale shifted s h k (inl e) = inl e
exact_exceeded scale shifted s h k (inr l) = elim (ℕ_discrete s 15) [
  | yes e ↦ inl e
  | no d ↦
      inr (subst (λ v. ltb_ℤ shifted v ≡ true) (radius_threshold-volume scale s h (omega arith)) l)
]

-- For a sum from -2 ^ 21 to 2 ^ 21 - 1 and a scale up to 700000 no `int` overflows: the size lies between
-- 1 and 15, its volume is above the shifted sum unless it is 15, the volume of the radius below is not
-- unless it is 1, and the fallback is never used.
pub size_is_least_radius :
    (fallback scale : ℕ) (sig_sum : ℤ)
    → negsuc 0x1FFFFF ≤ℤ sig_sum
    → sig_sum ≤ℤ pos 0x1FFFFF
    → scale ≤ 700000
    → (contact_size fallback sig_sum (pos scale) ≡ get_size_in_mm sig_sum (pos scale))
      × Fitting scale sig_sum (get_size_in_mm sig_sum (pos scale))
size_is_least_radius fallback scale sig_sum low high small =
    let e = small_sum (pos scale) sig_sum low high in
    let shifted = sig_sum *ℤ pos 1024 in
    let (from, to) = grow_radius-range (pos scale) shifted 14 1 in
    let s = get_size_in_mm sig_sum (pos scale) in
    (
      fallback_unused fallback (pos scale) sig_sum (omega (arith, e)),
      record {
        above_0 = omega (arith, e);
        to_15 = omega (arith, e);
        reached =
            exact_reached scale shifted s small (omega (arith, e))
              (reached (pos scale) shifted s e);
        exceeded =
            exact_exceeded scale shifted s small (omega (arith, e))
              (exceeded (pos scale) shifted s e);
      },
    )
