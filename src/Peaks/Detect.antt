-- ===== src/Peaks/Detect.antt =====
-- What DetectInRange finds: every peak is a local maximum, and the strongest are kept.
use ego_touch_rev.Prelude.{
  ℕ, zero, suc, ◌+◌, ◌*◌, ◌/◌, ◌%◌, ◌≤◌, ◌<◌, ◌≡◌, inl, inr, refl, sym, arith, List, [], Bool, true,
  false, ◌&&◌, length, All, All-imp, Bool-cases,
}
use mathlib.Core.Path.{subst}
use native.Mathlib.Decide.{dec_lt}
use ego_touch_rev.Engine.{Heat}
use ego_touch_rev.Peaks.{
  Peak, Settings, is_local_max, is_candidate, insert_peak, peak_at, scan, detect_in_range,
}
use ego_touch_rev.Peaks.Apart.{local_maxima_apart}
use ego_touch_rev.Peaks.Insert.{
  Apart, Separate, Kept, insert_peak-All, insert_peak-Separate, length-insert_peak,
  insert_peak-Kept, Kept-insert_peak,
}

and_left : (a b : Bool) → a && b ≡ true → a ≡ true
and_left a b h = ground arith

module _ (cfg : Settings) (heat : Heat) where
  -- A peak stands for a candidate cell of the matrix and has its signal.
  abbrev pub IsPeak : Peak → Type 0
  IsPeak p = (p.r < 40) × (p.c < 60) × (is_candidate cfg heat p.r p.c ≡ true) × (p.z ≡ heat p.r p.c)

  abbrev Before : ℕ → Peak → Type 0
  Before i p = IsPeak p × (60 * p.r + p.c < i)

  -- What holds of the list when the scan is at cell `i`.
  pub record Scanned (i : ℕ) (ps : List Peak) : Type 0 where
    pub peaks : All (Before i) ps
    pub separate : Separate ps
    pub bound : length ps ≤ 20
    pub kept :
        (r c : ℕ)
        → r < 40
        → c < 60
        → 60 * r + c < i
        → is_candidate cfg heat r c ≡ true
        → Kept (peak_at heat r c) ps

  pub candidate_is_max :
      (r c : ℕ) → is_candidate cfg heat r c ≡ true → is_local_max cfg heat r c ≡ true
  unfolding is_candidate
  candidate_is_max r c h = and_left (is_local_max cfg heat r c) _ h

  new-Apart :
      (r c : ℕ)
      → r < 40
      → c < 60
      → is_candidate cfg heat r c ≡ true
      → (p : Peak) → Before (60 * r + c) p
      → Apart (peak_at heat r c) p
  unfolding peak_at
  new-Apart r c hr hc m p ((pr, pc, pm, pz), before) a b d e =
      local_maxima_apart cfg heat p.r p.c r c hr pc hc before (omega arith) (omega arith)
        (omega arith) (candidate_is_max p.r p.c pm) (candidate_is_max r c m)

  new-IsPeak :
      (r c : ℕ) → r < 40 → c < 60 → is_candidate cfg heat r c ≡ true → IsPeak (peak_at heat r c)
  unfolding peak_at
  new-IsPeak r c hr hc m = (hr, hc, m, refl)

  new_before : (r c i : ℕ) → 60 * r + c < i → 60 * (peak_at heat r c).r + (peak_at heat r c).c < i
  unfolding peak_at
  new_before r c i h = h

  later : (i j : ℕ) → i ≤ j → (p : Peak) → Before i p → Before j p
  later i j h p (q, b) = (q, omega arith)

  Kept-insert :
      (r c : ℕ) (ps : List Peak)
      → c < 60
      → is_candidate cfg heat r c ≡ true
      → Scanned (60 * r + c) ps
      → (r' c' : ℕ) → r' < 40
      → c' < 60
      → 60 * r' + c' < 60 * r + c + 1
      → is_candidate cfg heat r' c' ≡ true
      → Kept (peak_at heat r' c') (insert_peak (peak_at heat r c) ps)
  Kept-insert r c ps hc m s r' c' hr' hc' before m' = elim (dec_lt (60 * r' + c') (60 * r + c)) [
    | yes old ↦
        Kept-insert_peak (peak_at heat r c) ps s.bound (peak_at heat r' c')
          (s.kept r' c' hr' hc' old m')
    | no new ↦
        let er : r' ≡ r = omega arith in
        let ec : c' ≡ c = omega arith in
        rw (er, ec) (insert_peak-Kept (peak_at heat r c) ps s.bound)
  ]

  insert-Scanned :
      (r c : ℕ) (ps : List Peak)
      → r < 40
      → c < 60
      → is_candidate cfg heat r c ≡ true
      → Scanned (60 * r + c) ps
      → Scanned (60 * r + c + 1) (insert_peak (peak_at heat r c) ps)
  insert-Scanned r c ps hr hc m s = record {
    peaks =
        insert_peak-All (peak_at heat r c) ps (Before (60 * r + c + 1))
          (new-IsPeak r c hr hc m, new_before r c _ (omega arith))
          (All-imp (later (60 * r + c) (60 * r + c + 1) (omega arith)) ps s.peaks);
    separate =
        insert_peak-Separate (peak_at heat r c) ps s.separate
          (All-imp (new-Apart r c hr hc m) ps s.peaks);
    bound = length-insert_peak (peak_at heat r c) ps s.bound;
    kept = Kept-insert r c ps hc m s;
  }

  skip-Scanned :
      (r c : ℕ) (ps : List Peak)
      → c < 60
      → is_candidate cfg heat r c ≡ false
      → Scanned (60 * r + c) ps
      → Scanned (60 * r + c + 1) ps
  skip-Scanned r c ps hc m s = record {
    peaks = All-imp (later (60 * r + c) (60 * r + c + 1) (omega arith)) ps s.peaks;
    separate = s.separate;
    bound = s.bound;
    kept = λ r' c' hr' hc' before m'. elim (dec_lt (60 * r' + c') (60 * r + c)) [
      | yes old ↦ s.kept r' c' hr' hc' old m'
      | no new ↦
          let er : r' ≡ r = omega arith in
          let ec : c' ≡ c = omega arith in absurd (cc (m, rw (er, ec) at m'))
    ];
  }

  scan-Scanned :
      (n i : ℕ) (ps : List Peak) → n + i ≡ 2400 → Scanned i ps → Scanned 2400 (scan cfg heat n i ps)
  unfolding scan
  scan-Scanned zero i ps e s = let e' : i ≡ 2400 = omega arith in rw (← e') s
  scan-Scanned (suc n) i ps e s =
      let place : 60 * (i / 60) + i % 60 ≡ i = omega arith in
      let here = subst (λ (k : ℕ). Scanned k ps) (sym place) s in
      elim (Bool-cases (is_candidate cfg heat (i / 60) (i % 60))) [
        | inl m ↦
            rw (m, scan)
              (scan-Scanned n (i + 1) _ (omega arith) (
                rw place at
                  (insert-Scanned (i / 60) (i % 60) ps (omega arith) (omega arith) m here)))
        | inr m ↦
            rw (m, scan)
              (scan-Scanned n (i + 1) _ (omega arith)
                (rw place at (skip-Scanned (i / 60) (i % 60) ps (omega arith) m here)))
      ]

  pub detect_in_range-Scanned : Scanned 2400 (detect_in_range cfg heat)
  unfolding detect_in_range
  detect_in_range-Scanned = scan-Scanned 2400 0 [] refl (record {
    peaks = tt;
    separate = tt;
    bound = omega arith;
    kept = λ r c hr hc before m. absurd (omega arith);
  })

  -- Every candidate cell has its peak in the list, unless the list is full of peaks that are at least
  -- as strong.
  pub strongest_peaks_win :
      (r c : ℕ)
      → r < 40
      → c < 60
      → is_candidate cfg heat r c ≡ true
      → Kept (peak_at heat r c) (detect_in_range cfg heat)
  strongest_peaks_win r c hr hc m = detect_in_range-Scanned.kept r c hr hc (omega arith) m
