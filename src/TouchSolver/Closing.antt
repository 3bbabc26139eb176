-- ===== src/TouchSolver/Closing.antt =====
-- DilateAndErode of ZoneExpander.cpp: gaps are filled with the zone that most neighbours have.
pub mod Votes
use mathlib.Core.Path.{subst}
use native.Mathlib.Decide.{ℕ_discrete}
use ego_touch_rev.Prelude.{
  ℕ, zero, suc, ◌+◌, ◌-◌, ◌*◌, ◌/◌, ◌%◌, ◌≤◌, ◌<◌, ◌≡◌, ◌≢◌, ◌⊎◌, inl, inr, refl, sym, ◌∙◌, ap,
  arith, List, [], ◌∷◌, ◌++◌, Bool, true, false, not, ◌&&◌, ◌||◌, ltb, leb, ◌==◌, Bool-cases,
  if◌then◌else◌, length, length-set, length-replicate, get_or, get_or-set_self, get_or-set_ne, set,
  replicate,
}

-- The cells of the grid around cell `i`, in the order of the code.
abbrev pub keep_if : Bool → ℕ → List ℕ → List ℕ
keep_if true i is = i ∷ is
keep_if false i is = is

unfoldable pub around : ℕ → List ℕ
around i =
    let r = i / 60 in
    let c = i % 60 in
    keep_if (ltb 0 r && ltb 0 c) (60 * (r - 1) + (c - 1)) (
      keep_if (ltb 0 r) (60 * (r - 1) + c) (
        keep_if (ltb 0 r && ltb c 59) (60 * (r - 1) + (c + 1)) (
          keep_if (ltb 0 c) (60 * r + (c - 1)) (
            keep_if (ltb c 59) (60 * r + (c + 1)) (
              keep_if (ltb r 39 && ltb 0 c) (60 * (r + 1) + (c - 1)) (
                keep_if (ltb r 39) (60 * (r + 1) + c)
                  (keep_if (ltb r 39 && ltb c 59) (60 * (r + 1) + (c + 1)) [])))))))

-- The loop over the neighbours, with the counts of the zones and the best zone and its count so far.
unfoldable pub vote : List ℕ → List ℕ → List ℕ → ℕ → ℕ → ℕ × ℕ
vote zones [] counts best most = (best, most)
vote zones (j ∷ js) counts best most =
    let z = get_or zones j 0 in
    let n = get_or counts z 0 + 1 in
    let skipped = vote zones js counts best most in
    let counted =
      vote zones js (set counts z n) (if ltb most n then z else best)
        (if ltb most n then n else most) in
    if z == 0 || ltb 20 z then skipped else counted

unfoldable pub fill_gap : List ℕ → ℕ → ℕ
unfolding vote around
fill_gap zones i =
    let (best, most) = vote zones (around i) (replicate 22 0) 0 0 in if leb 3 most then best else 0

unfoldable pub dilated_cell : List ℕ → ℕ → ℕ
unfolding fill_gap
dilated_cell zones i = if not (get_or zones i 0 == 0) then get_or zones i 0 else fill_gap zones i

-- The cells from `i` on, with the cells that are left.
unfoldable pub cells_from : (ℕ → ℕ) → ℕ → ℕ → List ℕ
cells_from f zero i = []
cells_from f (suc n) i = f i ∷ cells_from f n (i + 1)

unfoldable pub has_empty : List ℕ → List ℕ → Bool
has_empty zones [] = false
has_empty zones (j ∷ js) = get_or zones j 0 == 0 || has_empty zones js

unfoldable pub eroded_cell : List ℕ → List ℕ → ℕ → ℕ
unfolding has_empty around
eroded_cell orig dilated i =
    if get_or dilated i 0 == 0 || not (get_or orig i 0 == 0)
    then get_or dilated i 0
    else if has_empty dilated (around i)
    then 0
    else get_or dilated i 0

-- Both passes over the 2400 cells; each reads the map that was there before it.
unfoldable pub dilate_and_erode : List ℕ → List ℕ
unfolding cells_from dilated_cell eroded_cell
dilate_and_erode zones =
    cells_from (eroded_cell zones (cells_from (dilated_cell zones) 2400 0)) 2400 0

-- The neighbours with zone `z`.
unfoldable pub occurrences : List ℕ → ℕ → List ℕ → ℕ
occurrences zones z [] = 0
occurrences zones z (j ∷ js) =
    let rest = occurrences zones z js in if get_or zones j 0 == z then rest + 1 else rest
