-- ===== src/RingBuffer/Laws.antt =====
-- The representation invariant of the ring, and what each method does to it.
use ego_touch_rev.Prelude.{
  ℕ, ◌+◌, ◌-◌, ◌%◌, ◌^◌, ◌≤◌, ◌<◌, ◌≡◌, ap, sym, arith, length, length-set, length-replicate,
}
use native.Mathlib.Nat.{mod-add-mod}
use ego_touch_rev.RingBuffer.{RingBuffer, new, push, push_overwriting, pop, clear}

-- A capacity that a `std::array` can have: positive, and far from the range of `size_t`.
abbrev pub IsCapacity : ℕ → Type 0
IsCapacity capacity = (0 < capacity) × (capacity ≤ 2 ^ 62)

pub record IsValid {ℓ} {A : Type ℓ} (capacity : ℕ) (s : RingBuffer A) : Type 0 where
  pub full_array : length s.buffer ≡ capacity
  pub head_in : s.head < capacity
  pub tail_in : s.tail < capacity
  pub count_in : s.count ≤ capacity
  pub tail_behind : s.tail ≡ (s.head + s.count) % capacity

-- One more step round the ring.
pub step_mod : (a c : ℕ) → (a + 1) % c ≡ (a % c + 1) % c
step_mod a c = sym (mod-add-mod a c 1)

-- A full turn leads back.
pub turn_mod : (a c : ℕ) → a < c → (a + c) % c ≡ a
turn_mod a c h = grind arith

pub zero_mod : (c : ℕ) → 0 < c → (0 + 0) % c ≡ 0
zero_mod c h = grind arith

-- Taking the oldest item off moves the head, and leaves the tail where it is.
pub shrink : (h n c : ℕ) → 0 < n → (h + n) % c ≡ ((h + 1) % c + (n - 1)) % c
shrink h n c p = rw (mod-add-mod (h + 1) c (n - 1)) (ap (λ k. k % c) (omega arith))

-- At a full ring head and tail move together.
pub full_shift : (h n c : ℕ) → n ≡ c → ((h + n) % c + 1) % c ≡ ((h + 1) % c + n) % c
full_shift h n c p =
    rw (mod-add-mod (h + n) c 1, mod-add-mod (h + 1) c n) (ap (λ k. k % c) (omega arith))

module _ {ℓ} {A : Type ℓ} (capacity : ℕ) (blank : A) (c : IsCapacity capacity) where
  pub new-IsValid : IsValid capacity (new capacity blank)
  unfolding new
  new-IsValid = record {
    full_array = length-replicate capacity blank;
    head_in = omega arith;
    tail_in = omega arith;
    count_in = omega arith;
    tail_behind = grind arith;
  }

  pub push-IsValid :
      (x : A) (s : RingBuffer A) → IsValid capacity s → IsValid capacity (push capacity blank x s).1
  unfolding push
  push-IsValid x s v =
      ground (arith, length-set s.buffer s.tail x, step_mod (s.head + s.count) capacity)

  pub push_overwriting-IsValid :
      (x : A) (s : RingBuffer A)
      → IsValid capacity s
      → IsValid capacity (push_overwriting capacity blank x s)
  unfolding push_overwriting
  push_overwriting-IsValid x s v = ground (
    arith,
    length-set s.buffer s.tail x,
    step_mod (s.head + s.count) capacity,
    full_shift (s.head) s.count capacity,
  )

  pub pop-IsValid :
      (s : RingBuffer A) → IsValid capacity s → IsValid capacity (pop capacity blank s).1
  unfolding pop
  pop-IsValid s v = ground (arith, shrink (s.head) s.count capacity)

  pub clear-IsValid :
      (s : RingBuffer A) → IsValid capacity s → IsValid capacity (clear capacity blank s)
  unfolding clear
  clear-IsValid s v = ground (arith, zero_mod capacity)
