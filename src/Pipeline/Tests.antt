-- ===== src/Pipeline/Tests.antt =====
-- Three counters as processors, and the theorems at them.
use ego_touch_rev.Prelude.{ℕ, ◌+◌, ◌≡◌, refl, List, [], ◌∷◌, true, false, some, ◌==◌, ltb}
use ego_touch_rev.Pipeline.{Processor, add_processor, remove_processor, execute}

-- It adds to the state and accepts while the state is below a limit.
abbrev adder : ℕ → ℕ → Processor ℕ
adder n limit = record { name = n; process = λ s. (ltb s limit, s + n) }

abbrev chain : List (Processor ℕ)
chain = adder 1 10 ∷ adder 2 3 ∷ adder 4 9 ∷ []

accepted : execute chain 1 ≡ (true, 8)
unfolding execute
accepted = refl

refused : execute chain 4 ≡ (false, 7)
unfolding execute
refused = refl

removed : remove_processor ◌==◌ 2 chain ≡ adder 1 10 ∷ adder 4 9 ∷ []
unfolding remove_processor
removed = refl

added : add_processor (some (adder 3 1)) (adder 1 10 ∷ []) ≡ adder 1 10 ∷ adder 3 1 ∷ []
unfolding add_processor
added = refl
