-- ===== src/Peaks/Track.antt =====
-- What Detect does behind the scan: SortPeaks, the cap and TrackPeakIDs.
use ego_touch_rev.Prelude.{
  ℕ, ◌+◌, ◌-◌, ◌%◌, List, [], ◌∷◌, Bool, true, false, not, ◌&&◌, ltb, leb, Option, none, some,
  if◌then◌else◌, length, get_or, set, take, replicate,
}
use ego_touch_rev.Engine.{Heat}
use ego_touch_rev.Peaks.{
  Peak, Settings, max_peaks, detect_in_range, apply_z8_filter, apply_z1_filter,
  apply_edge_peak_filter,
}

-- m_peaks, m_prevPeaks and m_nextPeakId.
pub record PeakDetector : Type 0 where
  pub peaks : List Peak
  pub prev_peaks : List Peak
  pub next_peak_id : ℕ

abbrev pub new_detector : PeakDetector
new_detector = record { peaks = []; prev_peaks = []; next_peak_id = 1 }

abbrev pub manhattan : Peak → Peak → ℕ
manhattan p q = (p.r - q.r) + (q.r - p.r) + ((p.c - q.c) + (q.c - p.c))

-- The inner loop of TrackPeakIDs at index `j`, with the best index and its distance so far.
unfoldable pub nearest : Peak → List Peak → List Bool → ℕ → Option ℕ → ℕ → Option ℕ × ℕ
nearest pk [] used j best dist = (best, dist)
nearest pk (q ∷ qs) used j best dist =
    let near = not (get_or used j true) && ltb (manhattan pk q) dist in
    nearest pk qs used (j + 1) (if near then some j else best)
      (if near then manhattan pk q else dist)

-- `m_nextPeakId++` on `uint8`.
abbrev pub fresh_id : Peak → List Bool → ℕ → Peak × List Bool × ℕ
fresh_id pk used next = (record pk { id = next; tz_age = 0 }, used, (next + 1) % 256)

abbrev pub carry_id : List Peak → Peak → List Bool → ℕ → Option ℕ × ℕ → Peak × List Bool × ℕ
carry_id prev pk used next (none, dist) = fresh_id pk used next
carry_id prev pk used next (some j, dist) =
    if leb dist 3
    then (
      record pk { id = (get_or prev j pk).id; tz_age = ((get_or prev j pk).tz_age + 1) % 65536 },
      set used j true,
      next,
    )
    else fresh_id pk used next

-- The outer loop of TrackPeakIDs.
unfoldable pub match_peaks : List Peak → List Peak → List Bool → ℕ → List Peak × ℕ
unfolding nearest
match_peaks prev [] used next = ([], next)
match_peaks prev (pk ∷ pks) used next =
    let (pk', used', next') = carry_id prev pk used next (nearest pk prev used 0 none 9999) in
    let (rest, last) = match_peaks prev pks used' next' in (pk' ∷ rest, last)

-- The first frame of TrackPeakIDs.
unfoldable pub number_peaks : List Peak → ℕ → List Peak × ℕ
number_peaks [] next = ([], next)
number_peaks (pk ∷ pks) next =
    let (rest, last) = number_peaks pks ((next + 1) % 256) in (record pk { id = next } ∷ rest, last)

abbrev pub assign_ids : List Peak → List Peak → ℕ → List Peak × ℕ
assign_ids [] pks next = number_peaks pks next
assign_ids (q ∷ qs) pks next = match_peaks (q ∷ qs) pks (replicate (length (q ∷ qs)) false) next

unfoldable pub track_peak_ids : PeakDetector → PeakDetector
unfolding match_peaks number_peaks
track_peak_ids d =
    let (pks, next) = assign_ids d.prev_peaks d.peaks d.next_peak_id in
    record { peaks = pks; prev_peaks = pks; next_peak_id = next }

-- Steps 2 to 4 of Detect.
unfoldable pub filter_peaks : Settings → List Peak → List Peak
filter_peaks cfg scanned =
    let z8 = if cfg.z8_filter then apply_z8_filter scanned else scanned in
    let z1 = if cfg.z1_filter then apply_z1_filter cfg.threshold z8 else z8 in
    if cfg.edge_peak_filter then apply_edge_peak_filter z1 else z1

-- Step 6 of Detect.
unfoldable pub cap_peaks : List Peak → List Peak
cap_peaks peaks = if ltb max_peaks (length peaks) then take max_peaks peaks else peaks

module _ (sort : List Peak → List Peak) (cfg : Settings) (heat : Heat) where
  unfoldable pub detect : PeakDetector → PeakDetector
  detect d =
      track_peak_ids
        (record d { peaks = cap_peaks (sort (filter_peaks cfg (detect_in_range cfg heat))) })
