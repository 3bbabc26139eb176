-- ===== src/Pipeline/Order.antt =====
-- Moving processors: nothing is lost, and a move up is undone by the move down.
use mathlib.Core.List.{Permᴰ}
use mathlib.Core.List.Permᴰ as P
use ego_touch_rev.Prelude.{ℕ, zero, suc, List, [], ◌∷◌}
use ego_touch_rev.Pipeline.{Processor}

module _ {S : Type 0} where
  -- The list with the entries at `i` and `i + 1` exchanged.
  unfoldable pub exchange : ℕ → List (Processor S) → List (Processor S)
  exchange zero [] = []
  exchange zero (p ∷ []) = p ∷ []
  exchange zero (p ∷ q ∷ ps) = q ∷ p ∷ ps
  exchange (suc i) [] = []
  exchange (suc i) (p ∷ ps) = p ∷ exchange i ps
