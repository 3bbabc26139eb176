-- ===== src/Preprocessing/Parser.antt =====
-- MasterFrameParser.cpp and BaselineSubtraction.cpp: from the bytes of a frame to signals.
use mathlib.Core.Path.{subst}
use ego_touch_rev.Prelude.{
  ℕ, zero, suc, ◌+◌, ◌-◌, ◌*◌, ◌/◌, ◌%◌, ◌≤◌, ◌<◌, ◌≡◌, refl, sym, ◌∙◌, ap, ap₂, length-append,
  arith, List, [], ◌∷◌, ◌++◌, Bool, true, false, not, ltb, length, get_or, if◌then◌else◌,
}
use ego_touch_rev.Prelude.Int.{
  ℤ, pos, negsuc, ◌-ℤ◌, to_int16, from_int16, IsInt16, to_int16-from_int16, wrap16,
}
use ego_touch_rev.Engine.{Heat}

-- Cell `i` of the loop, from the two bytes of its word.
unfoldable pub parse_cell : List ℕ → ℕ → ℤ
unfolding to_int16
parse_cell raw i = to_int16 (get_or raw (7 + 2 * i) 0 + 256 * get_or raw (7 + 2 * i + 1) 0)

unfoldable pub parse_master : Bool → List ℕ → Heat → Heat
unfolding parse_cell
parse_master enabled raw heat =
    if not enabled
    then heat
    else if ltb (length raw) 5063
    then heat
    else (λ r c. parse_cell raw (60 * r + c))

unfoldable pub subtract_baseline : Bool → ℤ → Heat → Heat
unfolding wrap16
subtract_baseline enabled baseline heat =
    if not enabled then heat else (λ r c. wrap16 (heat r c -ℤ wrap16 baseline))

abbrev pub default_baseline : ℤ
default_baseline = pos 0x7FFE

-- The bytes of `n` words from word `i` on, the low byte first.
unfoldable pub word_bytes : (ℕ → ℕ) → ℕ → ℕ → List ℕ
word_bytes word i zero = []
word_bytes word i (suc n) = word i % 256 ∷ word i / 256 ∷ word_bytes word (i + 1) n

module _ (word : ℕ → ℕ) where
  length-word_bytes : (n i : ℕ) → length (word_bytes word i n) ≡ 2 * n
  unfolding word_bytes
  length-word_bytes zero i = refl
  length-word_bytes (suc n) i = omega (arith, length-word_bytes n (i + 1))

  get_or-word_bytes :
      (n i k : ℕ) (rest : List ℕ)
      → k < n
      → (get_or (word_bytes word i n ++ rest) (2 * k) 0 ≡ word (i + k) % 256)
        × (get_or (word_bytes word i n ++ rest) (2 * k + 1) 0 ≡ word (i + k) / 256)
  unfolding word_bytes
  get_or-word_bytes zero i k rest h = absurd (omega arith)
  get_or-word_bytes (suc n) i zero rest h =
      let e : i + 0 ≡ i = omega arith in
      (ap (λ j. word j % 256) (sym e), ap (λ j. word j / 256) (sym e))
  get_or-word_bytes (suc n) i (suc k) rest h =
      let e : 2 * suc k ≡ suc (suc (2 * k)) = omega arith in
      let f : suc (suc (2 * k)) + 1 ≡ suc (suc (2 * k + 1)) = omega arith in
      let g : i + suc k ≡ i + 1 + k = omega arith in
      rw (e, f, g) (get_or-word_bytes n (i + 1) k rest (omega arith))

get_or-append :
    (xs ys : List ℕ) (j k : ℕ) → k ≡ length xs + j → get_or (xs ++ ys) k 0 ≡ get_or ys j 0
get_or-append [] ys j k e = let e' : k ≡ j = omega arith in rw e'
get_or-append (x ∷ xs) ys j zero e = absurd (omega arith)
get_or-append (x ∷ xs) ys j (suc k) e = get_or-append xs ys j k (omega arith)

-- The bytes of a frame with a matrix.
abbrev pub frame_bytes : List ℕ → Heat → List ℕ → List ℕ
frame_bytes header heat rest =
    header ++ (word_bytes (λ i. from_int16 (heat (i / 60) (i % 60))) 0 2400 ++ rest)

length-frame_bytes :
    (header rest : List ℕ) (heat : Heat)
    → length (frame_bytes header heat rest) ≡ length header + (4800 + length rest)
length-frame_bytes header rest heat = omega (
  arith,
  length-append header (word_bytes (λ i. from_int16 (heat (i / 60) (i % 60))) 0 2400 ++ rest),
  length-append (word_bytes (λ i. from_int16 (heat (i / 60) (i % 60))) 0 2400) rest,
  length-word_bytes (λ i. from_int16 (heat (i / 60) (i % 60))) 2400 0,
)

parse_cell-frame_bytes :
    (header rest : List ℕ) (heat : Heat) (i : ℕ)
    → length header ≡ 7
    → i < 2400
    → IsInt16 (heat (i / 60) (i % 60))
    → parse_cell (frame_bytes header heat rest) i ≡ heat (i / 60) (i % 60)
unfolding parse_cell
parse_cell-frame_bytes header rest heat i h lt w =
    let word : ℕ → ℕ = λ j. from_int16 (heat (j / 60) (j % 60)) in
    let (low, high) = get_or-word_bytes word 2400 0 i rest lt in
    let e =
      get_or-append header (word_bytes word 0 2400 ++ rest) (2 * i) (7 + 2 * i) (omega arith) in
    let f =
      get_or-append header (word_bytes word 0 2400 ++ rest) (2 * i + 1) (7 + 2 * i + 1)
        (omega arith) in
    let z : 0 + i ≡ i = omega arith in
    let l : get_or (frame_bytes header heat rest) (7 + 2 * i) 0 ≡ word i % 256 =
      e ∙ low ∙ ap (λ j. word j % 256) z in
    let k : get_or (frame_bytes header heat rest) (7 + 2 * i + 1) 0 ≡ word i / 256 =
      f ∙ high ∙ ap (λ j. word j / 256) z in
    let sum : get_or (frame_bytes header heat rest) (7 + 2 * i) 0
          + 256 * get_or (frame_bytes header heat rest) (7 + 2 * i + 1) 0
        ≡ from_int16 (heat (i / 60) (i % 60)) =
      omega (arith, l, k) in
    ap to_int16 sum ∙ to_int16-from_int16 _ w

-- A matrix that is laid out behind seven bytes, its words in rows and the low byte first, is read back
-- from a frame that has at least 256 bytes behind it.
pub master_frame_roundtrip :
    (header rest : List ℕ) (heat before : Heat) (r c : ℕ)
    → length header ≡ 7
    → 256 ≤ length rest
    → c < 60
    → r < 40
    → IsInt16 (heat r c)
    → parse_master true (frame_bytes header heat rest) before r c ≡ heat r c
unfolding parse_master
master_frame_roundtrip header rest heat before r c h k hc hr w =
    let e : (60 * r + c) / 60 ≡ r = omega arith in
    let f : (60 * r + c) % 60 ≡ c = omega arith in
    let long : ltb (length (frame_bytes header heat rest)) 5063 ≡ false =
      ground (arith, length-frame_bytes header rest heat) in
    let cell =
      parse_cell-frame_bytes header rest heat (60 * r + c) h (omega arith)
        (subst IsInt16 (sym (ap₂ heat e f)) w) in
    rw (long, parse_master) (cell ∙ ap₂ heat e f)

baseline_word :
    (w : ℕ)
    → w < 65536
    → wrap16 (to_int16 w -ℤ pos 32766)
      ≡ (if ltb w 65534 then pos w -ℤ pos 32766 else negsuc (98301 - w))
unfolding wrap16 to_int16 ◌-ℤ◌
baseline_word w h = ground arith

-- With the default baseline a word below 65534 becomes its distance from the baseline, and the two
-- words above wrap to the far negative end.
pub baseline_is_subtracted :
    (raw : List ℕ) (before : Heat) (r c w : ℕ)
    → 5063 ≤ length raw
    → get_or raw (7 + 2 * (60 * r + c)) 0 + 256 * get_or raw (7 + 2 * (60 * r + c) + 1) 0 ≡ w
    → w < 65536
    → subtract_baseline true default_baseline (parse_master true raw before) r c
      ≡ (if ltb w 65534 then pos w -ℤ pos 32766 else negsuc (98301 - w))
unfolding subtract_baseline parse_master parse_cell
baseline_is_subtracted raw before r c w h e l =
    let long : ltb (length raw) 5063 ≡ false = ground arith in
    rw (long, parse_master, e) (baseline_word w l)
