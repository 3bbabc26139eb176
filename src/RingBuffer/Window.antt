-- ===== src/RingBuffer/Window.antt =====
-- The snapshot of a ring as a window on its array: what a write and a step of the head do to it.
use ego_touch_rev.Prelude.{
  ℕ, suc, zero, ◌+◌, ◌-◌, ◌%◌, ◌^◌, ◌≤◌, ◌<◌, ◌≡◌, ◌≢◌, refl, ap, sym, arith, ltb, length, List, [],
  ◌∷◌, ◌++◌, false, leb, get_or, set, get_or-set_self, get_or-set_ne, ◌∙◌,
}
use native.Mathlib.Nat.{mod-eq_of_lt, mod-eq-sub-mod, mod-add-mod, add-zero}
use native.Mathlib.Decide.{dec_lt}
use ego_touch_rev.RingBuffer.Laws.{IsCapacity, IsValid}
use ego_touch_rev.RingBuffer.{RingBuffer, add_size, snapshot_from, get_snapshot}

-- Fewer than `c` steps round the ring do not meet.
apart : (h j n c : ℕ) → h < c → j < n → n < c → (h + j) % c ≢ (h + n) % c
apart h j n c p q r = elim (dec_lt (h + n) c) [
  | yes a ↦ omega (arith, mod-eq_of_lt a, mod-eq_of_lt {n = h + j} {m = c} (omega arith))
  | no a ↦ elim (dec_lt (h + j) c) [
    | yes b ↦ omega (
      arith,
      mod-eq_of_lt b,
      mod-eq-sub-mod {n = h + n} {m = c} (omega arith),
      mod-eq_of_lt {n = h + n - c} {m = c} (omega arith),
    )
    | no b ↦ omega (
      arith,
      mod-eq-sub-mod {n = h + n} {m = c} (omega arith),
      mod-eq_of_lt {n = h + n - c} {m = c} (omega arith),
      mod-eq-sub-mod {n = h + j} {m = c} (omega arith),
      mod-eq_of_lt {n = h + j - c} {m = c} (omega arith),
    )
  ]
]

pub no_wrap : (a b : ℕ) → a + b < 2 ^ 64 → add_size a b ≡ a + b
no_wrap a b h = mod-eq_of_lt h

no_wrap_mod : (a b c : ℕ) → a + b < 2 ^ 64 → add_size a b % c ≡ (a + b) % c
no_wrap_mod a b c h = ap (λ k. k % c) (no_wrap a b h)

pub leb-false→lt : {a b : ℕ} → leb b a ≡ false → a < b
leb-false→lt h = ground arith

pub ltb-false→eq : {a b : ℕ} → a ≤ b → ltb a b ≡ false → a ≡ b
ltb-false→eq h e = ground arith

after : (i j : ℕ) → i + 1 + j ≡ i + suc j
after i j = omega arith

module _ {ℓ} {A : Type ℓ} (capacity : ℕ) (blank : A) where
  -- The item `k` places behind the head.
  abbrev pub item : RingBuffer A → ℕ → A
  item s k = get_or s.buffer (add_size s.head k % capacity) blank

  snapshot_ext :
      (s t : RingBuffer A) (i k n : ℕ)
      → ((j : ℕ) → j < n → item s (i + j) ≡ item t (k + j))
      → snapshot_from capacity blank s i n ≡ snapshot_from capacity blank t k n
  unfolding snapshot_from
  snapshot_ext s t i k zero same = refl
  snapshot_ext s t i k (suc n) same = cc (
    ap (item s) (add-zero i),
    ap (item t) (add-zero k),
    same 0 (omega arith),
    snapshot_ext s t (i + 1) (k + 1) n (λ j h.
        (ap (item s) (after i j) ∙ same (suc j) (omega arith)) ∙ sym (ap (item t) (after k j))),
  )

  snapshot_snoc :
      (s : RingBuffer A) (i n : ℕ)
      → snapshot_from capacity blank s i (suc n)
        ≡ snapshot_from capacity blank s i n ++ (item s (i + n) ∷ [])
  unfolding snapshot_from
  snapshot_snoc s i zero = rw add-zero
  snapshot_snoc s i (suc n) = cc (snapshot_snoc s (i + 1) n, ap (item s) (after i n))

  length-snapshot_from :
      (s : RingBuffer A) (i n : ℕ) → length (snapshot_from capacity blank s i n) ≡ n
  unfolding snapshot_from
  length-snapshot_from s i zero = refl
  length-snapshot_from s i (suc n) = ap suc (length-snapshot_from s (i + 1) n)

module _ {ℓ} {A : Type ℓ} (capacity : ℕ) (blank : A) (c : IsCapacity capacity) where
  abbrev pub view : RingBuffer A → List A
  view = get_snapshot capacity blank

  pub length-view : (s : RingBuffer A) → length (view s) ≡ s.count
  unfolding get_snapshot
  length-view s = length-snapshot_from capacity blank s 0 s.count

  item-write_ne :
      (x : A) (s t : RingBuffer A) (j : ℕ)
      → IsValid capacity s
      → s.count < capacity
      → t.buffer ≡ set s.buffer s.tail x
      → t.head ≡ s.head
      → j < s.count
      → item capacity blank t j ≡ item capacity blank s j
  item-write_ne x s t j v room b h less =
      rw (b, h)
        (get_or-set_ne s.buffer x blank λ e.
          apart s.head j s.count capacity v.head_in less room
            (sym (no_wrap_mod s.head j capacity (omega arith)) ∙ sym e ∙ v.tail_behind))

  item-write_self :
      (x : A) (s t : RingBuffer A)
      → IsValid capacity s
      → t.buffer ≡ set s.buffer s.tail x
      → t.head ≡ s.head
      → item capacity blank t s.count ≡ x
  item-write_self x s t v b h =
      let place : s.tail ≡ add_size s.head s.count % capacity =
        v.tail_behind ∙ sym (no_wrap_mod s.head s.count capacity (omega arith)) in
      rw (b, h, ← place) (get_or-set_self s.buffer s.tail x blank (omega arith))

  -- Writing the free slot behind the last item adds it to the view.
  pub view-write :
      (x : A) (s t : RingBuffer A)
      → IsValid capacity s
      → s.count < capacity
      → t.buffer ≡ set s.buffer s.tail x
      → t.head ≡ s.head
      → t.count ≡ s.count + 1
      → view t ≡ view s ++ (x ∷ [])
  unfolding get_snapshot
  view-write x s t v room b h n = cc (
    ap (snapshot_from capacity blank t 0) size_t,
    snapshot_snoc capacity blank t 0 s.count,
    snapshot_ext capacity blank t s 0 0 s.count
        (λ j less. item-write_ne x s t (0 + j) v room b h (omega arith)),
    ap (item capacity blank t) front,
    item-write_self x s t v b h,
  )
    where
      size_t : t.count ≡ suc s.count
      size_t = omega arith

      front : 0 + s.count ≡ s.count
      front = omega arith

  item-drop :
      (s t : RingBuffer A) (j : ℕ)
      → IsValid capacity s
      → t.buffer ≡ s.buffer
      → t.head ≡ add_size s.head 1 % capacity
      → j < s.count
      → item capacity blank t (0 + j) ≡ item capacity blank s (1 + j)
  item-drop s t j v b h less = rw b (ap (λ k. get_or s.buffer k blank) place)
    where
      place : add_size t.head (0 + j) % capacity ≡ add_size s.head (1 + j) % capacity
      place =
          rw
            (
              h,
              no_wrap_mod s.head 1 capacity (omega arith),
              no_wrap_mod ((s.head + 1) % capacity) (0 + j) capacity (omega arith),
              no_wrap_mod s.head (1 + j) capacity (omega arith),
              mod-add-mod (s.head + 1) capacity (0 + j),
            )
            (ap (λ k. k % capacity) (omega arith))

  item-first :
      (s : RingBuffer A)
      → IsValid capacity s
      → item capacity blank s 0 ≡ get_or s.buffer s.head blank
  item-first s v = ap (λ k. get_or s.buffer k blank) place
    where
      place : add_size s.head 0 % capacity ≡ s.head
      place = rw (no_wrap s.head 0 (omega arith), add-zero) (mod-eq_of_lt v.head_in)

  -- Moving the head drops the oldest item.
  pub view-drop :
      (s t : RingBuffer A)
      → IsValid capacity s
      → 0 < s.count
      → t.buffer ≡ s.buffer
      → t.head ≡ add_size s.head 1 % capacity
      → t.count ≡ s.count - 1
      → view s ≡ get_or s.buffer s.head blank ∷ view t
  unfolding get_snapshot snapshot_from
  view-drop s t v some_left b h n = cc (
    ap (snapshot_from capacity blank s 0) size_s,
    item-first s v,
    snapshot_ext capacity blank t s 0 1 t.count (λ j less. item-drop s t j v b h (omega arith)),
  )
    where
      size_s : s.count ≡ suc t.count
      size_s = omega arith
