-- ===== src/RingBuffer/Spec.antt =====
-- What the ring promises: a queue of at most `capacity` items, oldest first.
use ego_touch_rev.Prelude.{
  ℕ, List, [], ◌∷◌, ◌++◌, Bool, true, false, Option, none, some, ltb, leb, if◌then◌else◌, length,
  drop,
}

-- The methods of the ring that do not block.
pub data Op {ℓ} (A : Type ℓ) : Type ℓ where
  push : A → Op A
  push_overwriting : A → Op A
  pop : Op A
  clear : Op A
  get_snapshot : Op A
  size : Op A

-- A call of a client: a method, or WaitForData with what other threads call between its tests.
pub data Call {ℓ} (A : Type ℓ) : Type ℓ where
  now : Op A → Call A
  wait_for_data : List (List (Op A)) → Call A

-- What the caller sees of a call.
pub data Reply {ℓ} (A : Type ℓ) : Type ℓ where
  accepted : Bool → Reply A
  popped : Option A → Reply A
  listed : List A → Reply A
  counted : ℕ → Reply A
  done : Reply A

module _ {ℓ} {A : Type ℓ} (capacity : ℕ) where
  unfoldable pub step : Op A → List A → Reply A × List A
  step (push x) q =
      if leb capacity (length q) then (accepted false, q) else (accepted true, q ++ (x ∷ []))
  step (push_overwriting x) q =
      (done, if ltb (length q) capacity then q ++ (x ∷ []) else drop 1 (q ++ (x ∷ [])))
  step pop [] = (popped none, [])
  step pop (x ∷ q) = (popped (some x), q)
  step clear q = (done, [])
  step get_snapshot q = (listed q, q)
  step size q = (counted (length q), q)

  -- The queue behind the calls of others.
  unfoldable pub play : List (Op A) → List A → List A
  unfolding step
  play [] q = q
  play (op ∷ ops) q = play ops (step op q).1

  -- The wait takes the oldest item at the first test that finds one, the last test at the timeout.
  unfoldable pub wait : List (List (Op A)) → List A → Option A × List A
  unfolding play
  wait others (x ∷ q) = (some x, q)
  wait [] [] = (none, [])
  wait (ops ∷ others) [] = wait others (play ops [])

  unfoldable pub serve : Call A → List A → Reply A × List A
  unfolding step wait
  serve (now op) q = step op q
  serve (wait_for_data others) q = let (o, q') = wait others q in (popped o, q')

  unfoldable pub run : List (Call A) → List A → List (Reply A)
  unfolding serve
  run [] q = []
  run (c ∷ cs) q = let (r, q') = serve c q in r ∷ run cs q'
