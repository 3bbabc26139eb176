-- ===== src/Asa/Blocks.antt =====
-- The grids in the words of a slave frame.
use ego_touch_rev.Prelude.{
  ℕ, ◌≤◌, ◌≡◌, refl, sym, ◌∙◌, ap, ap₂, arith, List, [], ◌∷◌, ◌++◌, Bool, false, not, ◌||◌, ◌==◌,
  ltb, length, take, drop, map, All, length-append, length-map,
}
use ego_touch_rev.Prelude.Int.{from_int16, IsInt16, to_int16-from_int16, to_int16, ℤ}
use ego_touch_rev.Asa.{read_block, extract_grid_from_slave_words, anchor_invalid}

-- The 83 words of a block: the anchors in words 0 and 1, the signals from word 2 on.
unfoldable pub block_words : ℕ → ℕ → List ℤ → List ℕ
unfolding from_int16
block_words row col grid = row ∷ col ∷ map from_int16 grid

take-map :
    (grid : List ℤ) (rest : List ℕ)
    → All IsInt16 grid
    → map to_int16 (take (length grid) (map from_int16 grid ++ rest)) ≡ grid
take-map [] rest h = refl
take-map (v ∷ grid) rest (h, hs) =
    ap₂ (λ x xs. x ∷ xs) (to_int16-from_int16 v h) (take-map grid rest hs)

drop-map : (grid : List ℤ) (rest : List ℕ) → drop (length grid) (map from_int16 grid ++ rest) ≡ rest
drop-map [] rest = refl
drop-map (v ∷ grid) rest = drop-map grid rest

read_block-words :
    (row col : ℕ) (grid : List ℤ) (rest : List ℕ) (valid : Bool)
    → length grid ≡ 81
    → All IsInt16 grid
    → read_block (block_words row col grid ++ rest) valid
      ≡ record { anchor_row = row; anchor_col = col; grid = grid; valid = valid }
unfolding read_block block_words
read_block-words row col grid rest valid size h =
    ap (λ g. record { anchor_row = row; anchor_col = col; grid = g; valid = valid })
      (ap (λ n. map to_int16 (take n (map from_int16 grid ++ rest))) (sym size)
        ∙ take-map grid rest h)

drop_block :
    (row col : ℕ) (grid : List ℤ) (rest : List ℕ)
    → length grid ≡ 81
    → drop 83 (block_words row col grid ++ rest) ≡ rest
unfolding block_words
drop_block row col grid rest size =
    ap (λ n. drop n (map from_int16 grid ++ rest)) (sym size) ∙ drop-map grid rest

not-ltb : (a b : ℕ) → b ≤ a → ltb a b ≡ false
not-ltb a b h = ground arith

long-enough :
    (r1 c1 r2 c2 : ℕ) (g1 g2 : List ℤ) (rest : List ℕ)
    → length g1 ≡ 81
    → length g2 ≡ 81
    → ltb (length (block_words r1 c1 g1 ++ (block_words r2 c2 g2 ++ rest))) 166 ≡ false
unfolding block_words
long-enough r1 c1 r2 c2 g1 g2 rest l1 l2 = not-ltb _ 166 (
    omega (
      arith,
      l1,
      l2,
      length-append (map from_int16 g1) (block_words r2 c2 g2 ++ rest),
      length-append (map from_int16 g2) rest,
      length-map g1 from_int16,
      length-map g2 from_int16,
    ))

-- Two grids of 81 cells in blocks of two anchor words and 81 signals, with any anchors and whatever words
-- follow, are read back; both are valid exactly when an anchor of the first one is not the invalid one.
pub grids_roundtrip :
    (r1 c1 r2 c2 : ℕ) (g1 g2 : List ℤ) (rest : List ℕ)
    → length g1 ≡ 81
    → length g2 ≡ 81
    → All IsInt16 g1
    → All IsInt16 g2
    → let found =
        extract_grid_from_slave_words (block_words r1 c1 g1 ++ (block_words r2 c2 g2 ++ rest)) in
      let valid = not (r1 == anchor_invalid) || not (c1 == anchor_invalid) in
      found ≡ record {
        tx1 = record { anchor_row = r1; anchor_col = c1; grid = g1; valid = valid };
        tx2 = record { anchor_row = r2; anchor_col = c2; grid = g2; valid = valid };
      }
unfolding extract_grid_from_slave_words block_words
grids_roundtrip r1 c1 r2 c2 g1 g2 rest l1 l2 h1 h2 =
    let second = block_words r2 c2 g2 ++ rest in
    let valid = not (r1 == anchor_invalid) || not (c1 == anchor_invalid) in
    rw (long-enough r1 c1 r2 c2 g1 g2 rest l1 l2, extract_grid_from_slave_words)
      (ap₂ (λ a b. record { tx1 = a; tx2 = b }) (read_block-words r1 c1 g1 second valid l1 h1)
        (ap (λ w. read_block w valid) (drop_block r1 c1 g1 second l1)
          ∙ read_block-words r2 c2 g2 rest valid l2 h2))
