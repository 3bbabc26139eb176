-- ===== src/RingBuffer.antt =====
-- The mutex-guarded ring of Tools/EGoTouchApp/include/ConcurrentRingBuffer.h. Each method holds the
-- mutex from end to end, so it is one function on the state; `notify_one` has no state of its own.
-- `capacity` and `blank`, what a slot of a fresh `std::array` holds, are parameters.
pub mod Spec
pub mod Laws
pub mod Window
pub mod Refine
mod Tests
use ego_touch_rev.Prelude.{
  ℕ, zero, suc, ◌+◌, ◌-◌, ◌%◌, ◌^◌, List, [], ◌∷◌, Bool, true, false, Option, none, some, ltb, leb,
  ◌==◌, if◌then◌else◌, get_or, set, replicate,
}

pub record RingBuffer {ℓ} (A : Type ℓ) : Type ℓ where
  pub buffer : List A
  pub head : ℕ
  pub tail : ℕ
  pub count : ℕ

-- `size_t` addition wraps.
abbrev pub add_size : ℕ → ℕ → ℕ
add_size a b = (a + b) % 2 ^ 64

module _ {ℓ} {A : Type ℓ} (capacity : ℕ) (blank : A) where
  pub new : RingBuffer A
  new = record { buffer = replicate capacity blank; head = 0; tail = 0; count = 0 }

  -- `false` when full; nothing changes then.
  pub push : A → RingBuffer A → Bool × RingBuffer A
  push item s = if leb capacity s.count then (false, s) else (
    true,
    record s {
      buffer = set s.buffer s.tail item;
      tail = add_size s.tail 1 % capacity;
      count = add_size s.count 1;
    },
  )

  -- When full, the oldest item gives way.
  pub push_overwriting : A → RingBuffer A → RingBuffer A
  push_overwriting item s =
      let t = record s { buffer = set s.buffer s.tail item; tail = add_size s.tail 1 % capacity } in
      if ltb s.count capacity
      then record t { count = add_size s.count 1 }
      else record t { head = add_size s.head 1 % capacity }

  -- The loop of `GetSnapshot` from index `i`, with `n` rounds left.
  pub snapshot_from : RingBuffer A → ℕ → ℕ → List A
  snapshot_from s i zero = []
  snapshot_from s i (suc n) =
      get_or s.buffer (add_size s.head i % capacity) blank ∷ snapshot_from s (i + 1) n

  pub get_snapshot : RingBuffer A → List A
  get_snapshot s = snapshot_from s 0 s.count

  -- The option is what is written to `outItem`. `--m_count` runs only at a count above 0.
  pub pop : RingBuffer A → Option A × RingBuffer A
  pop s = if s.count == 0 then (none, s) else (
    some (get_or s.buffer s.head blank),
    record s { head = add_size s.head 1 % capacity; count = s.count - 1 },
  )

  pub size : RingBuffer A → ℕ
  size s = s.count

  pub clear : RingBuffer A → RingBuffer A
  clear s = record s { head = 0; tail = 0; count = 0 }

  -- `wait_for` tests its predicate, lets other threads run while it sleeps, tests again on each
  -- wake-up, and once more at the timeout. The list holds what the others do between two tests.
  pub wait_for_data : List (RingBuffer A → RingBuffer A) → RingBuffer A → Option A × RingBuffer A
  unfolding pop
  wait_for_data [] s = pop s
  wait_for_data (others ∷ rest) s =
      let later = wait_for_data rest (others s) in if ltb 0 s.count then pop s else later
