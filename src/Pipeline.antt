-- ===== src/Pipeline.antt =====
-- EGoTouchService/Engine/FramePipeline.cpp: the chain of processors, each with its name and its
-- Process on a state `S` of the frame and what the processors keep.
pub mod Order
pub mod Execute
mod Tests
use ego_touch_rev.Prelude.{
  ℕ, zero, suc, ◌+◌, ◌-◌, List, [], ◌∷◌, ◌++◌, Bool, true, false, not, ◌&&◌, Option, none, some,
  ltb, if◌then◌else◌, length, get_elem?, set,
}

pub record Processor (S : Type 0) : Type 0 where
  pub name : ℕ
  pub process : S → Bool × S

module _ {S : Type 0} where
  -- A null pointer is `none`.
  unfoldable pub add_processor : Option (Processor S) → List (Processor S) → List (Processor S)
  add_processor none ps = ps
  add_processor (some p) ps = ps ++ p ∷ []

  -- Names are compared by the test that is given.
  unfoldable pub remove_processor : (ℕ → ℕ → Bool) → ℕ → List (Processor S) → List (Processor S)
  remove_processor same name [] = []
  remove_processor same name (p ∷ ps) =
      let rest = remove_processor same name ps in if same p.name name then rest else p ∷ rest

  -- std::swap of two entries.
  abbrev pub swap_entries :
      List (Processor S) → ℕ → ℕ → Option (Processor S) → Option (Processor S) → List (Processor S)
  swap_entries ps i j (some p) (some q) = set (set ps i q) j p
  swap_entries ps i j _ _ = ps

  unfoldable pub move_processor_up : ℕ → List (Processor S) → List (Processor S)
  move_processor_up i ps =
      if ltb 0 i && ltb i (length ps)
      then swap_entries ps i (i - 1) (get_elem? ps i) (get_elem? ps (i - 1))
      else ps

  unfoldable pub move_processor_down : ℕ → List (Processor S) → List (Processor S)
  move_processor_down i ps =
      if ltb (i + 1) (length ps)
      then swap_entries ps i (i + 1) (get_elem? ps i) (get_elem? ps (i + 1))
      else ps

  -- The test of Execute: a frame that is refused is handed to no further processor.
  abbrev pub continue_with : (S → Bool × S) → Bool × S → Bool × S
  continue_with rest (true, s) = rest s
  continue_with rest (false, s) = (false, s)

  -- Execute, with the state behind the last processor that ran.
  unfoldable pub execute : List (Processor S) → S → Bool × S
  execute [] s = (true, s)
  execute (p ∷ ps) s = continue_with (execute ps) (p.process s)
