-- ===== src/RingBuffer/Tests.antt =====
-- The ring at a capacity of three, and the theorems at concrete rings.
use ego_touch_rev.Prelude.{ℕ, ◌≡◌, refl, arith, List, [], ◌∷◌, true, false, none, some}
use ego_touch_rev.RingBuffer.{
  RingBuffer, push, push_overwriting, pop, clear, wait_for_data, get_snapshot, snapshot_from, size,
}
use ego_touch_rev.RingBuffer.Spec
use ego_touch_rev.RingBuffer.Spec.{Op, Call, Reply, accepted, popped, listed, counted, done}
use ego_touch_rev.RingBuffer.Laws.{IsValid}
use ego_touch_rev.RingBuffer.Refine.{call, play, serve, run, run_refines}

-- 8, then 9, round the end of the array.
abbrev wrapped : RingBuffer ℕ
wrapped = record { buffer = 9 ∷ 7 ∷ 8 ∷ []; head = 2; tail = 1; count = 2 }

-- The wait at the end finds the ring empty twice, and then what another thread has pushed.
abbrev script : List (Call ℕ)
script =
    Spec.Call.now (Spec.Op.push 1)
    ∷ Spec.Call.now (Spec.Op.push 2)
    ∷ Spec.Call.now (Spec.Op.push_overwriting 3)
    ∷ Spec.Call.now Spec.Op.get_snapshot
    ∷ Spec.Call.now Spec.Op.pop
    ∷ Spec.Call.now Spec.Op.size
    ∷ Spec.Call.now Spec.Op.clear
    ∷ Spec.Call.now Spec.Op.pop
    ∷ Spec.Call.wait_for_data ([] ∷ (Spec.Op.push 6 ∷ Spec.Op.push 7 ∷ []) ∷ [])
    ∷ []

wrapped-IsValid : IsValid 3 wrapped
wrapped-IsValid = record {
  full_array = refl;
  head_in = omega arith;
  tail_in = omega arith;
  count_in = omega arith;
  tail_behind = refl;
}

script_runs :
    run 3 0 script wrapped
    ≡ accepted true
      ∷ accepted false
      ∷ done
      ∷ listed (9 ∷ 1 ∷ 3 ∷ [])
      ∷ popped (some 9)
      ∷ counted 2
      ∷ done
      ∷ popped none
      ∷ popped (some 6)
      ∷ []
unfolding run serve play call push push_overwriting pop clear wait_for_data get_snapshot size
    snapshot_from
script_runs = refl

run_refines_example : run 3 0 script wrapped ≡ Spec.run 3 script (get_snapshot 3 0 wrapped)
run_refines_example = run_refines 3 0 (omega arith, omega arith) script wrapped wrapped-IsValid

abbrev drained : RingBuffer ℕ
drained = record wrapped { count = 0 }

drained_waits : (wait_for_data 3 0 (clear 3 0 ∷ []) drained).0 ≡ none
unfolding wait_for_data clear
drained_waits = refl
