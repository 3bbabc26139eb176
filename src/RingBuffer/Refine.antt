-- ===== src/RingBuffer/Refine.antt =====
-- A valid ring answers every sequence of calls as the bounded queue of its snapshot does.
use ego_touch_rev.Prelude.{
  ap₂, map, length, false, ℕ, ◌-◌, ◌%◌, ◌<◌, ◌≡◌, refl, ap, sym, arith, ltb, List, [], ◌∷◌, ◌++◌,
  true, none, leb, ◌==◌, set, Bool-cases, inl, inr, ◌∙◌, drop, ltb→lt, tests,
}
use ego_touch_rev.RingBuffer.Spec.{Op, Call, Reply, accepted, popped, listed, counted, done}
use ego_touch_rev.RingBuffer.Spec
use ego_touch_rev.RingBuffer.Laws.{
  IsCapacity, IsValid, push-IsValid, push_overwriting-IsValid, pop-IsValid, clear-IsValid,
}
use ego_touch_rev.RingBuffer.{
  RingBuffer, add_size, push, push_overwriting, pop, clear, size, wait_for_data, snapshot_from,
  get_snapshot,
}
use ego_touch_rev.RingBuffer.Window.{
  no_wrap, leb-false→lt, ltb-false→eq, length-view, view-write, view-drop,
}

module _ {ℓ} {A : Type ℓ} (capacity : ℕ) (blank : A) where
  -- A client's call on the ring, with what it returns.
  unfoldable pub call : Op A → RingBuffer A → Reply A × RingBuffer A
  call (Spec.Op.push x) s = let (b, t) = push capacity blank x s in (accepted b, t)
  call (Spec.Op.push_overwriting x) s = (done, push_overwriting capacity blank x s)
  call Spec.Op.pop s = let (o, t) = pop capacity blank s in (popped o, t)
  call Spec.Op.clear s = (done, clear capacity blank s)
  call Spec.Op.get_snapshot s = (listed (get_snapshot capacity blank s), s)
  call Spec.Op.size s = (counted (size capacity blank s), s)

  -- The ring behind the calls of another thread.
  unfoldable pub play : List (Op A) → RingBuffer A → RingBuffer A
  unfolding call
  play [] s = s
  play (op ∷ ops) s = play ops (call op s).1

  unfoldable pub serve : Call A → RingBuffer A → Reply A × RingBuffer A
  unfolding call play
  serve (Spec.Call.now op) s = call op s
  serve (Spec.Call.wait_for_data others) s =
      let (o, t) = wait_for_data capacity blank (map play others) s in (popped o, t)

  unfoldable pub run : List (Call A) → RingBuffer A → List (Reply A)
  unfolding serve
  run [] s = []
  run (c ∷ cs) s = let (r, t) = serve c s in r ∷ run cs t

module _ {ℓ} {A : Type ℓ} (capacity : ℕ) (blank : A) (c : IsCapacity capacity) where
  -- Every call keeps the ring well formed: the indices in range, the tail `count` places behind the
  -- head, and no more items than `capacity`.
  pub call-IsValid :
      (op : Op A) (s : RingBuffer A)
      → IsValid capacity s
      → IsValid capacity (call capacity blank op s).1
  unfolding call
  call-IsValid (Spec.Op.push x) s v = push-IsValid capacity blank c x s v
  call-IsValid (Spec.Op.push_overwriting x) s v = push_overwriting-IsValid capacity blank c x s v
  call-IsValid Spec.Op.pop s v = pop-IsValid capacity blank c s v
  call-IsValid Spec.Op.clear s v = clear-IsValid capacity blank c s v
  call-IsValid Spec.Op.get_snapshot s v = v
  call-IsValid Spec.Op.size s v = v

  -- The two states that a push can store.
  abbrev stored : A → RingBuffer A → RingBuffer A
  stored x s = record s {
    buffer = set s.buffer s.tail x;
    tail = add_size s.tail 1 % capacity;
    count = add_size s.count 1;
  }

  abbrev replaced : A → RingBuffer A → RingBuffer A
  replaced x s = record s {
    buffer = set s.buffer s.tail x;
    tail = add_size s.tail 1 % capacity;
    head = add_size s.head 1 % capacity;
  }

  abbrev view-with : A → RingBuffer A → List A
  view-with x s = get_snapshot capacity blank s ++ (x ∷ [])

  push_refines :
      (x : A) (s : RingBuffer A)
      → IsValid capacity s
      → let (b, t) = push capacity blank x s in
        (accepted b, get_snapshot capacity blank t)
        ≡ Spec.step capacity (Spec.Op.push x) (get_snapshot capacity blank s)
  unfolding push Spec.step
  push_refines x s v = elim (Bool-cases (leb capacity s.count)) [
    | inl e ↦ rw (length-view capacity blank c s, e) refl
    | inr e ↦ rw (length-view capacity blank c s, e, added (leb-false→lt e)) refl
  ]
    where
      added : s.count < capacity → get_snapshot capacity blank (stored x s) ≡ view-with x s
      added h =
          view-write capacity blank c x s (stored x s) v h refl refl
            (no_wrap s.count 1 (omega arith))

  -- What is left after the oldest item is taken off.
  abbrev rest_of : RingBuffer A → RingBuffer A
  rest_of s = record s { head = add_size s.head 1 % capacity; count = s.count - 1 }

  rest_of-IsValid :
      (s : RingBuffer A) → IsValid capacity s → 0 < s.count → IsValid capacity (rest_of s)
  unfolding pop
  rest_of-IsValid s v h = ground (arith, pop-IsValid capacity blank c s v)

  overwrite_full :
      (x : A) (s t : RingBuffer A)
      → IsValid capacity s
      → s.count ≡ capacity
      → t.buffer ≡ set s.buffer s.tail x
      → t.head ≡ add_size s.head 1 % capacity
      → t.count ≡ s.count
      → get_snapshot capacity blank t ≡ drop 1 (get_snapshot capacity blank s ++ (x ∷ []))
  overwrite_full x s t v full b h n =
      view-write capacity blank c x (rest_of s) t (rest_of-IsValid s v (omega arith)) (omega arith)
        b h (omega arith)
      ∙ ap (λ q. drop 1 (q ++ (x ∷ [])))
          (sym (view-drop capacity blank c s (rest_of s) v (omega arith) refl refl refl))

  push_overwriting_refines :
      (x : A) (s : RingBuffer A)
      → IsValid capacity s
      → (done, get_snapshot capacity blank (push_overwriting capacity blank x s))
        ≡ Spec.step capacity (Spec.Op.push_overwriting x) (get_snapshot capacity blank s)
  unfolding push_overwriting Spec.step
  push_overwriting_refines x s v = elim (Bool-cases (ltb s.count capacity)) [
    | inl e ↦
        rw
          (
            length-view capacity blank c s,
            e,
            view-write capacity blank c x s (stored x s) v (ltb→lt _ _ e) refl refl
                (no_wrap s.count 1 (omega tests)),
          )
          refl
    | inr e ↦
        rw
          (
            length-view capacity blank c s,
            e,
            overwrite_full x s (replaced x s) v (ltb-false→eq v.count_in e) refl refl refl,
          )
          refl
  ]

  pop_refines :
      (s : RingBuffer A)
      → IsValid capacity s
      → let (o, t) = pop capacity blank s in
        (popped o, get_snapshot capacity blank t)
        ≡ Spec.step capacity Spec.Op.pop (get_snapshot capacity blank s)
  unfolding pop Spec.step
  pop_refines s v = elim (Bool-cases (s.count == 0)) [
    | inl e ↦ rw (e, empty_view e) refl
    | inr e ↦ rw (e, view-drop capacity blank c s (rest_of s) v (ground arith) refl refl refl) refl
  ]
    where
      empty_view : (s.count == 0) ≡ true → get_snapshot capacity blank s ≡ []
      empty_view e = ground (arith, length-view capacity blank c s)

  -- One call answers as the queue does, and leaves the ring holding the queue.
  call_refines :
      (op : Op A) (s : RingBuffer A)
      → IsValid capacity s
      → let (r, t) = call capacity blank op s in
        (r, get_snapshot capacity blank t) ≡ Spec.step capacity op (get_snapshot capacity blank s)
  unfolding call Spec.step clear size get_snapshot snapshot_from
  call_refines (Spec.Op.push x) s v = push_refines x s v
  call_refines (Spec.Op.push_overwriting x) s v = push_overwriting_refines x s v
  call_refines Spec.Op.pop s v = pop_refines s v
  call_refines Spec.Op.clear s v = refl
  call_refines Spec.Op.get_snapshot s v = refl
  call_refines Spec.Op.size s v = rw (length-view capacity blank c s) refl

  -- A ring that is valid and holds a queue.
  record Holds (s : RingBuffer A) (q : List A) : Type ℓ where
    valid : IsValid capacity s
    holds : get_snapshot capacity blank s ≡ q

  -- A reply and the ring behind it agree with those of the queue.
  record Agrees (o : Reply A × RingBuffer A) (p : Reply A × List A) : Type ℓ where
    reply : o.0 ≡ p.0
    after : Holds o.1 p.1

  call-Agrees :
      (op : Op A) (s : RingBuffer A) (q : List A)
      → Holds s q
      → Agrees (call capacity blank op s) (Spec.step capacity op q)
  call-Agrees op s q h =
      let same = call_refines op s h.valid ∙ ap (Spec.step capacity op) h.holds in
      record {
        reply = ap (λ p. p.0) same;
        after = record { valid = call-IsValid op s h.valid; holds = ap (λ p. p.1) same };
      }

  play-Holds :
      (ops : List (Op A)) (s : RingBuffer A) (q : List A)
      → Holds s q
      → Holds (play capacity blank ops s) (Spec.play capacity ops q)
  unfolding play Spec.play
  play-Holds [] s q h = h
  play-Holds (op ∷ ops) s q h =
      play-Holds ops (call capacity blank op s).1 (Spec.step capacity op q).1
        (call-Agrees op s q h).after

  pop-Agrees :
      (s : RingBuffer A) (q : List A)
      → Holds s q
      → let (o, t) = pop capacity blank s in Agrees (popped o, t) (Spec.step capacity Spec.Op.pop q)
  unfolding call
  pop-Agrees s q h = call-Agrees Spec.Op.pop s q h

  wait-Agrees :
      (others : List (List (Op A))) (s : RingBuffer A) (q : List A)
      → Holds s q
      → let (o, t) = wait_for_data capacity blank (map (play capacity blank) others) s in
        let (p, q') = Spec.wait capacity others q in Agrees (popped o, t) (popped p, q')
  unfolding wait_for_data Spec.wait Spec.step
  wait-Agrees [] s [] h = pop-Agrees s [] h
  wait-Agrees [] s (x ∷ q) h = pop-Agrees s (x ∷ q) h
  wait-Agrees (ops ∷ others) s [] h =
      let empty : ltb 0 s.count ≡ false =
        ground (arith, length-view capacity blank c s, ap length h.holds) in
      rw empty (
        wait-Agrees others (play capacity blank ops s) (Spec.play capacity ops [])
          (play-Holds ops s [] h))
  wait-Agrees (ops ∷ others) s (x ∷ q) h =
      let some_item : ltb 0 s.count ≡ true =
        ground (arith, length-view capacity blank c s, ap length h.holds) in
      rw some_item (pop-Agrees s (x ∷ q) h)

  serve-Agrees :
      (k : Call A) (s : RingBuffer A) (q : List A)
      → Holds s q
      → Agrees (serve capacity blank k s) (Spec.serve capacity k q)
  unfolding serve Spec.serve
  serve-Agrees (Spec.Call.now op) s q h = call-Agrees op s q h
  serve-Agrees (Spec.Call.wait_for_data others) s q h = wait-Agrees others s q h

  run-Holds :
      (ks : List (Call A)) (s : RingBuffer A) (q : List A)
      → Holds s q
      → run capacity blank ks s ≡ Spec.run capacity ks q
  unfolding run Spec.run
  run-Holds [] s q h = refl
  run-Holds (k ∷ ks) s q h =
      let g = serve-Agrees k s q h in
      ap₂ ◌∷◌ g.reply
        (run-Holds ks (serve capacity blank k s).1 (Spec.serve capacity k q).1 g.after)

  -- Every sequence of calls of Push, PushOverwriting, Pop, Clear, GetSnapshot, Size and WaitForData on a
  -- valid ring, whatever other threads call between the tests of a wait, gets the replies that the
  -- bounded queue of its snapshot gives, in the same order.
  pub run_refines :
      (ks : List (Call A)) (s : RingBuffer A)
      → IsValid capacity s
      → run capacity blank ks s ≡ Spec.run capacity ks (get_snapshot capacity blank s)
  run_refines ks s v =
      run-Holds ks s (get_snapshot capacity blank s) (record { valid = v; holds = refl })

module _ {ℓ} {A : Type ℓ} (capacity : ℕ) (blank : A) where
  -- A wait that gives up found the ring empty at its first test and leaves it empty, whatever the
  -- other threads did in between.
  pub wait_for_data-empty :
      (others : List (RingBuffer A → RingBuffer A)) (s : RingBuffer A)
      → (wait_for_data capacity blank others s).0 ≡ none
      → (s.count ≡ 0) × ((wait_for_data capacity blank others s).1.count ≡ 0)
  unfolding wait_for_data
  wait_for_data-empty [] s h = ground arith
  wait_for_data-empty (f ∷ rest) s h = ground (arith, wait_for_data-empty rest (f s))
