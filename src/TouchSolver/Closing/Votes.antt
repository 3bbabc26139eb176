-- ===== src/TouchSolver/Closing/Votes.antt =====
-- What the votes of the neighbours decide, and what DilateAndErode makes of a cell.
use mathlib.Core.Path.{subst}
use native.Mathlib.Decide.{ℕ_discrete}
use ego_touch_rev.Prelude.{
  ℕ, zero, suc, ◌+◌, ◌≤◌, ◌<◌, ◌≡◌, ◌≢◌, inl, inr, refl, sym, ◌∙◌, ap, arith, List, [], ◌∷◌, true,
  false, ◌||◌, ltb, leb, ◌==◌, Bool-cases, if◌then◌else◌, length, length-set, length-replicate,
  get_or, get_or-set_self, get_or-set_ne, set, replicate,
}
use ego_touch_rev.TouchSolver.Closing.{
  around, vote, fill_gap, dilated_cell, cells_from, has_empty, eroded_cell, dilate_and_erode,
  occurrences,
}

get_or-cells_from : (f : ℕ → ℕ) (n i k : ℕ) → k < n → get_or (cells_from f n i) k 0 ≡ f (i + k)
unfolding cells_from
get_or-cells_from f zero i k h = absurd (omega arith)
get_or-cells_from f (suc n) i zero h = let e : i ≡ i + 0 = omega arith in ap f e
get_or-cells_from f (suc n) i (suc k) h =
    let e : i + 1 + k ≡ i + suc k = omega arith in
    get_or-cells_from f n (i + 1) k (omega arith) ∙ ap f e

-- One more at `z`, with the counts of the others as they were.
abbrev add_vote : List ℕ → ℕ → List ℕ
add_vote counts z = set counts z (get_or counts z 0 + 1)

add_vote_self :
    (counts : List ℕ) (z : ℕ)
    → z < length counts
    → get_or (add_vote counts z) z 0 ≡ get_or counts z 0 + 1
add_vote_self counts z h = get_or-set_self counts z (get_or counts z 0 + 1) 0 h

add_vote-ge :
    (counts : List ℕ) (z w : ℕ)
    → z < length counts
    → get_or counts w 0 ≤ get_or (add_vote counts z) w 0
add_vote-ge counts z w h = elim (ℕ_discrete z w) [
  | yes e ↦
      subst (λ v. get_or counts v 0 ≤ get_or (add_vote counts z) v 0) e
        (omega (arith, add_vote_self counts z h))
  | no d ↦ omega (arith, get_or-set_ne counts (get_or counts z 0 + 1) 0 d)
]

add_vote-le :
    (counts : List ℕ) (z w m : ℕ)
    → z < length counts
    → get_or counts w 0 ≤ m
    → get_or counts z 0 < m
    → get_or (add_vote counts z) w 0 ≤ m
add_vote-le counts z w m h k l = elim (ℕ_discrete z w) [
  | yes e ↦
      subst (λ v. get_or (add_vote counts z) v 0 ≤ m) e (omega (arith, add_vote_self counts z h))
  | no d ↦ omega (arith, get_or-set_ne counts (get_or counts z 0 + 1) 0 d)
]

module _ (zones : List ℕ) where
  occurrences-ge : (w j : ℕ) (js : List ℕ) → occurrences zones w js ≤ occurrences zones w (j ∷ js)
  unfolding occurrences
  occurrences-ge w j js = ground arith

  occurrences-ne :
      (w j : ℕ) (js : List ℕ)
      → get_or zones j 0 ≢ w
      → occurrences zones w (j ∷ js) ≡ occurrences zones w js
  unfolding occurrences
  occurrences-ne w j js d = ground (arith, d)

  -- The count of a vote moves from the cells ahead to the counts.
  move_vote :
      (counts : List ℕ) (w j : ℕ) (js : List ℕ)
      → get_or zones j 0 < length counts
      → get_or (add_vote counts (get_or zones j 0)) w 0 + occurrences zones w js
        ≡ get_or counts w 0 + occurrences zones w (j ∷ js)
  unfolding occurrences
  move_vote counts w j js h = elim (ℕ_discrete (get_or zones j 0) w) [
    | yes e ↦
        subst
          (λ v.
            get_or (add_vote counts (get_or zones j 0)) v 0 + occurrences zones v js
            ≡ get_or counts v 0 + occurrences zones v (j ∷ js))
          e (ground (arith, add_vote_self counts (get_or zones j 0) h))
    | no d ↦ omega (
      arith,
      occurrences-ne w j js d,
      get_or-set_ne counts (get_or counts (get_or zones j 0) 0 + 1) 0 d,
    )
  ]

  -- The winner of the votes has as many as are said, and no zone up to 20 has more.
  pub record Wins (js counts : List ℕ) (out : ℕ × ℕ) : Type 0 where
    pub votes : out.1 ≤ get_or counts out.0 0 + occurrences zones out.0 js
    pub largest : (z : ℕ) → 0 < z → z ≤ 20 → get_or counts z 0 + occurrences zones z js ≤ out.1

  counted-Wins :
      (counts : List ℕ) (j : ℕ) (js : List ℕ) (out : ℕ × ℕ)
      → get_or zones j 0 < length counts
      → Wins js (add_vote counts (get_or zones j 0)) out
      → Wins (j ∷ js) counts out
  counted-Wins counts j js out h w = record {
    votes = omega (arith, w.votes, move_vote counts out.0 j js h);
    largest = λ z a b. omega (arith, w.largest z a b, move_vote counts z j js h);
  }

  skipped-Wins :
      (counts : List ℕ) (j : ℕ) (js : List ℕ) (out : ℕ × ℕ)
      → get_or zones j 0 == 0 || ltb 20 (get_or zones j 0) ≡ true
      → Wins js counts out
      → Wins (j ∷ js) counts out
  skipped-Wins counts j js out t w = record {
    votes = omega (arith, w.votes, occurrences-ge out.0 j js);
    largest =
        λ z a b. omega (arith, w.largest z a b, occurrences-ne z j js (λ e. ground (arith, t, e)));
  }

  vote-Wins :
      (js counts : List ℕ) (best most : ℕ)
      → length counts ≡ 22
      → most ≤ get_or counts best 0
      → ((z : ℕ) → 0 < z → z ≤ 20 → get_or counts z 0 ≤ most)
      → Wins js counts (vote zones js counts best most)
  unfolding vote occurrences
  vote-Wins [] counts best most size low high = record {
    votes = omega (arith, low);
    largest = λ z a b. omega (arith, high z a b);
  }
  vote-Wins (j ∷ js) counts best most size low high =
      let z = get_or zones j 0 in
      elim (Bool-cases (z == 0 || ltb 20 z)) [
        | inl t ↦ rw t (skipped-Wins counts j js _ t (vote-Wins js counts best most size low high))
        | inr t ↦
            let inside : z < length counts = ground (arith, t, size) in
            let size' = length-set counts z (get_or counts z 0 + 1) in
            elim (Bool-cases (ltb most (get_or counts z 0 + 1))) [
              | inl u ↦
                  rw (t, u)
                    (counted-Wins counts j js _ inside (
                      vote-Wins js (add_vote counts z) z (get_or counts z 0 + 1)
                        (omega (arith, size', size)) (omega (arith, add_vote_self counts z inside))
                        (λ w a b.
                          add_vote-le counts z w (get_or counts z 0 + 1) inside
                            (ground (arith, high w a b, u)) (omega arith))))
              | inr u ↦
                  rw (t, u)
                    (counted-Wins counts j js _ inside (
                      vote-Wins js (add_vote counts z) best most (omega (arith, size', size))
                        (omega (arith, low, add_vote-ge counts z best inside))
                        (λ w a b.
                          add_vote-le counts z w most inside (high w a b) (ground (arith, u)))))
            ]
      ]

get_or-zeros : (n k : ℕ) → get_or {A = ℕ} (replicate n 0) k 0 ≡ 0
get_or-zeros zero k = refl
get_or-zeros (suc n) zero = refl
get_or-zeros (suc n) (suc k) = get_or-zeros n k

abbrev dilate : List ℕ → List ℕ
dilate zones = cells_from (dilated_cell zones) 2400 0

-- What becomes of cell `i`. A gap is filled with a zone of at least three neighbours that no zone up to
-- 20 outnumbers, where no neighbour is left empty.
pub data Closed (zones : List ℕ) (i : ℕ) : ℕ → Type 0 where
  kept : get_or zones i 0 ≢ 0 → Closed zones i (get_or zones i 0)
  empty : get_or zones i 0 ≡ 0 → Closed zones i 0
  filled :
      (z : ℕ)
      → get_or zones i 0 ≡ 0
      → 3 ≤ occurrences zones z (around i)
      → ((w : ℕ) → 0 < w → w ≤ 20 → occurrences zones w (around i) ≤ occurrences zones z (around i))
      → has_empty (dilate zones) (around i) ≡ false
      → Closed zones i z

-- A gap before the erosion.
data Filled (zones : List ℕ) (i : ℕ) : ℕ → Type 0 where
  no_zone : Filled zones i 0
  chosen :
      (z : ℕ)
      → 3 ≤ occurrences zones z (around i)
      → ((w : ℕ) → 0 < w → w ≤ 20 → occurrences zones w (around i) ≤ occurrences zones z (around i))
      → Filled zones i z

module _ (zones : List ℕ) (i : ℕ) where
  winner-Filled :
      (out : ℕ × ℕ)
      → Wins zones (around i) (replicate 22 0) out
      → Filled zones i (if leb 3 out.1 then out.0 else 0)
  winner-Filled out w = elim (Bool-cases (leb 3 out.1)) [
    | inr t ↦ rw t Filled.no_zone
    | inl t ↦
        let votes : out.1 ≤ occurrences zones out.0 (around i) =
          omega (arith, w.votes, get_or-zeros 22 out.0) in
        rw t (
          Filled.chosen out.0 (ground (arith, t, votes))
            (λ z a b. omega (arith, w.largest z a b, votes)))
  ]

  fill_gap-Filled : Filled zones i (fill_gap zones i)
  unfolding fill_gap
  fill_gap-Filled = winner-Filled _ (
      vote-Wins zones (around i) (replicate 22 0) 0 0 (length-replicate {A = ℕ} 22 0) (omega arith)
        (λ z a b. omega (arith, get_or-zeros 22 z)))

  Filled-Closed :
      (z : ℕ)
      → get_or zones i 0 ≡ 0
      → has_empty (dilate zones) (around i) ≡ false
      → Filled zones i z
      → Closed zones i z
  Filled-Closed _ e t Filled.no_zone = Closed.empty e
  Filled-Closed z e t (Filled.chosen _ v l) = Closed.filled z e v l t

  eroded-Closed :
      get_or zones i 0 ≡ 0
      → Closed zones i (if has_empty (dilate zones) (around i) then 0 else fill_gap zones i)
  eroded-Closed e = elim (Bool-cases (has_empty (dilate zones) (around i))) [
    | inl t ↦ rw t (Closed.empty e)
    | inr t ↦ rw t (Filled-Closed (fill_gap zones i) e t fill_gap-Filled)
  ]

  gap-Closed :
      get_or zones i 0 ≡ 0
      → get_or (dilate zones) i 0 ≡ fill_gap zones i
      → Closed zones i (eroded_cell zones (dilate zones) i)
  unfolding eroded_cell
  gap-Closed e f = elim (Bool-cases (fill_gap zones i == 0)) [
    | inl t ↦ let z : fill_gap zones i ≡ 0 = ground (arith, t) in rw (f, e, z) (Closed.empty e)
    | inr t ↦ rw (f, e, t) (eroded-Closed e)
  ]

  dilated_cell-gap : get_or zones i 0 ≡ 0 → dilated_cell zones i ≡ fill_gap zones i
  unfolding dilated_cell
  dilated_cell-gap e = rw e refl

  dilated_cell-zone : get_or zones i 0 == 0 ≡ false → dilated_cell zones i ≡ get_or zones i 0
  unfolding dilated_cell
  dilated_cell-zone t = rw t refl

  zone-Closed :
      get_or zones i 0 == 0 ≡ false
      → get_or (dilate zones) i 0 ≡ get_or zones i 0
      → Closed zones i (eroded_cell zones (dilate zones) i)
  unfolding eroded_cell
  zone-Closed t f = rw (f, t) (Closed.kept (λ e. ground (arith, t, e)))

cell : (f : ℕ → ℕ) (i : ℕ) → i < 2400 → get_or (cells_from f 2400 0) i 0 ≡ f i
cell f i h = let e : 0 + i ≡ i = omega arith in get_or-cells_from f 2400 0 i h ∙ ap f e

-- A cell that has a zone keeps it. One without gets none, or a zone of at least three neighbours that
-- no zone up to 20 outnumbers, and this only where no neighbour is left empty by the dilation.
pub gaps_follow_majority :
    (zones : List ℕ) (i : ℕ) → i < 2400 → Closed zones i (get_or (dilate_and_erode zones) i 0)
unfolding dilate_and_erode
gaps_follow_majority zones i h =
    let same = cell (dilated_cell zones) i h in
    subst (Closed zones i) (sym (cell (eroded_cell zones (dilate zones)) i h))
      (elim (Bool-cases (get_or zones i 0 == 0)) [
        | inl t ↦
            let e : get_or zones i 0 ≡ 0 = ground (arith, t) in
            gap-Closed zones i e (same ∙ dilated_cell-gap zones i e)
        | inr t ↦ zone-Closed zones i t (same ∙ dilated_cell-zone zones i t)
      ])
