-- ===== src/Pipeline/Execute.antt =====
-- Execute: the processors run in order, and the first that refuses the frame is the last to run.
use ego_touch_rev.Prelude.{◌≡◌, refl, List, [], ◌∷◌, ◌++◌, Bool, true, false}
use ego_touch_rev.Pipeline.{Processor, continue_with, execute}

module _ {S : Type 0} where
  -- `ps` takes a state to another, every processor accepting.
  pub data Passes : List (Processor S) → S → S → Type 0 where
    done : (s : S) → Passes [] s s
    next :
        (p : Processor S) (ps : List (Processor S)) (s s' t : S)
        → p.process s ≡ (true, s')
        → Passes ps s' t
        → Passes (p ∷ ps) s t

  -- Every processor accepts, or all before one accept and that one refuses and is the last to run.
  pub data Outcome (ps : List (Processor S)) (s : S) : Bool × S → Type 0 where
    passed : (t : S) → Passes ps s t → Outcome ps s (true, t)
    dropped :
        (before after : List (Processor S)) (p : Processor S) (s' t : S)
        → ps ≡ before ++ p ∷ after
        → Passes before s s'
        → p.process s' ≡ (false, t)
        → Outcome ps s (false, t)

  extend :
      (p : Processor S) (ps : List (Processor S)) (s s' : S) (r : Bool × S)
      → p.process s ≡ (true, s')
      → Outcome ps s' r
      → Outcome (p ∷ ps) s r
  extend p ps s s' _ e (Outcome.passed t w) = Outcome.passed t (Passes.next p ps s s' t e w)
  extend p ps s s' _ e (Outcome.dropped before after q u t f w g) =
      Outcome.dropped (p ∷ before) after q u t (rw f refl) (Passes.next p before s s' u e w) g

  step-Outcome :
      (p : Processor S) (ps : List (Processor S)) (s : S) (r : Bool × S)
      → p.process s ≡ r
      → ((s' : S) → Outcome ps s' (execute ps s'))
      → Outcome (p ∷ ps) s (continue_with (execute ps) r)
  step-Outcome p ps s (true, s') e ih = extend p ps s s' _ e (ih s')
  step-Outcome p ps s (false, s') e ih = Outcome.dropped [] ps p s s' refl (Passes.done s) e

  -- What Execute returns is the outcome of its processors in their order.
  pub execute-Outcome : (ps : List (Processor S)) (s : S) → Outcome ps s (execute ps s)
  unfolding execute
  execute-Outcome [] s = Outcome.passed s (Passes.done s)
  execute-Outcome (p ∷ ps) s = step-Outcome p ps s (p.process s) refl (execute-Outcome ps)
