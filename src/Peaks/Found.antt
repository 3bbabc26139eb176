-- ===== src/Peaks/Found.antt =====
-- What Detect hands on: the filters, the sort and the numbering keep the peaks apart.
use ego_touch_rev.Prelude.{ℕ, ◌+◌, ◌≤◌, ◌<◌, ◌≡◌, arith, List, true, length, All, All-imp}
use ego_touch_rev.Prelude.Int.{◌≤ℤ◌}
use ego_touch_rev.Engine.{Heat}
use ego_touch_rev.Peaks.{Peak, Settings, thold_at, is_candidate, detect_in_range}
use ego_touch_rev.Peaks.Apart.{local_max_threshold, local_max_is_largest}
use ego_touch_rev.Peaks.Insert.{Separate}
use ego_touch_rev.Peaks.Track.{PeakDetector, track_peak_ids, filter_peaks, cap_peaks, detect}
use ego_touch_rev.Peaks.Detect.{IsPeak, candidate_is_max, detect_in_range-Scanned}
use ego_touch_rev.Peaks.Filters.{
  Ascending, SortsBySignal, IsSound, filter_peaks-IsSound, sorted-IsSound, cap_peaks-IsSound,
}
use ego_touch_rev.Peaks.Restamp.{
  Restamped, assign_ids-Restamped, Restamped-All, Restamped-length, Restamped-Separate,
  Restamped-Ascending, cap_peaks-Ascending,
}

-- A peak on a cell that reaches the threshold and that no neighbour exceeds.
pub record IsMaximum (cfg : Settings) (heat : Heat) (p : Peak) : Type 0 where
  pub row : p.r < 40
  pub col : p.c < 60
  pub signal : p.z ≡ heat p.r p.c
  pub threshold : thold_at cfg p.r p.c ≤ℤ p.z
  pub largest :
      (r c : ℕ)
      → r < 40
      → c < 60
      → r ≤ p.r + 1
      → p.r ≤ r + 1
      → c ≤ p.c + 1
      → p.c ≤ c + 1
      → heat r c ≤ℤ p.z

module _ (cfg : Settings) (heat : Heat) (sort : List Peak → List Peak)
    (spec : SortsBySignal sort) where
  Restamped-IsSound :
      (ps qs : List Peak) → Restamped ps qs → IsSound cfg heat ps → IsSound cfg heat qs
  Restamped-IsSound ps qs r s = record {
    peaks =
        Restamped-All
          (λ r' c' z'.
            (r' < 40) × (c' < 60) × (is_candidate cfg heat r' c' ≡ true) × (z' ≡ heat r' c'))
          ps qs r s.peaks;
    separate = Restamped-Separate ps qs r s.separate;
    bound = omega (arith, Restamped-length ps qs r, s.bound);
  }

  found : List Peak
  found = cap_peaks (sort (filter_peaks cfg (detect_in_range cfg heat)))

  found-IsSound : IsSound cfg heat found
  unfolding found
  found-IsSound =
      let scanned = detect_in_range-Scanned cfg heat in
      let sound : IsSound cfg heat (detect_in_range cfg heat) = record {
        peaks = All-imp (λ p b. b.0) _ scanned.peaks;
        separate = scanned.separate;
        bound = scanned.bound;
      } in
      cap_peaks-IsSound cfg heat _
        (sorted-IsSound cfg heat sort _ spec (filter_peaks-IsSound cfg heat _ sound))

  detected-Restamped : (d : PeakDetector) → Restamped found (detect sort cfg heat d).peaks
  unfolding found detect track_peak_ids
  detected-Restamped d = assign_ids-Restamped d.prev_peaks found d.next_peak_id

  largest : (p : Peak) → IsPeak cfg heat p → IsMaximum cfg heat p
  largest p (hr, hc, m, z) = record {
    row = hr;
    col = hc;
    signal = z;
    threshold = rw z (local_max_threshold cfg heat p.r p.c (candidate_is_max cfg heat p.r p.c m));
    largest = λ r c hr' hc' a b d e. rw z (
        local_max_is_largest cfg heat p.r p.c r c hr hc hr' hc' a b d e
          (candidate_is_max cfg heat p.r p.c m));
  }

  -- Detect hands on at most twenty peaks in ascending order of their signals. Each has the signal of a
  -- cell of the matrix that reaches the threshold and that no neighbour exceeds, and no two are
  -- neighbours. The sort is to return its peaks in ascending order.
  pub detected_peaks_are_apart :
      (d : PeakDetector)
      → All (IsMaximum cfg heat) (detect sort cfg heat d).peaks
        × Separate (detect sort cfg heat d).peaks
        × (length (detect sort cfg heat d).peaks ≤ 20)
        × Ascending (detect sort cfg heat d).peaks
  unfolding found
  detected_peaks_are_apart d =
      let sound = Restamped-IsSound found _ (detected-Restamped d) found-IsSound in
      (
        All-imp largest _ sound.peaks,
        sound.separate,
        sound.bound,
        Restamped-Ascending found _ (detected-Restamped d)
            (cap_peaks-Ascending _ (spec.ascending (filter_peaks cfg (detect_in_range cfg heat)))),
      )
