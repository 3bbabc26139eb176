-- ===== src/Peaks/Tests.antt =====
-- A finger on a matrix, a sort that meets the promise, and the theorems at them.
use mathlib.Core.List.{Permᴰ}
use mathlib.Core.List.Permᴰ as P
use ego_touch_rev.Prelude.{
  ℕ, ◌%◌, ◌≤◌, ◌≡◌, refl, arith, List, [], ◌∷◌, true, false, ◌==◌, inl, inr, length, All, All-imp,
  if◌then◌else◌, Bool-cases, ◌&&◌,
}
use ego_touch_rev.Prelude.Int.{ℤ, pos, ◌≤ℤ◌, ltb_ℤ, ◌*ℤ◌}
use ego_touch_rev.Engine.{Heat}
use ego_touch_rev.Peaks.{Peak, default_settings, is_candidate, peak_at, detect_in_range}
use ego_touch_rev.Peaks.Insert.{Separate, AtLeast, Kept}
use ego_touch_rev.Peaks.Track.{PeakDetector, new_detector, detect}
use ego_touch_rev.Peaks.Detect.{strongest_peaks_win}
use ego_touch_rev.Peaks.Filters.{Ascending, SortsBySignal}
use ego_touch_rev.Peaks.Found.{IsMaximum, detected_peaks_are_apart}
use ego_touch_rev.Peaks.Numbers.{track_alone, lone_peak_keeps_number}

-- A finger on cell (10, 20) and its neighbour on the right.
abbrev finger : Heat
finger r c =
    if (r == 10) && (c == 20)
    then pos 1600
    else if (r == 10) && (c == 21)
    then pos 1500
    else if (r == 11) && (c == 20)
    then pos 900
    else pos 0

finger-is_candidate : is_candidate default_settings finger 10 20 ≡ true
unfolding is_candidate ◌*ℤ◌
finger-is_candidate = refl

neighbour_is_none : is_candidate default_settings finger 10 21 ≡ false
unfolding is_candidate
neighbour_is_none = refl

strongest_peaks_win_example : Kept (peak_at finger 10 20) (detect_in_range default_settings finger)
strongest_peaks_win_example =
    strongest_peaks_win default_settings finger 10 20 (omega arith) (omega arith)
      finger-is_candidate

-- Insertion sort by the signal.
insert_sorted : Peak → List Peak → List Peak
insert_sorted p [] = p ∷ []
insert_sorted p (q ∷ qs) =
    let rest = insert_sorted p qs in if ltb_ℤ q.z p.z then q ∷ rest else p ∷ q ∷ qs

sort_peaks : List Peak → List Peak
sort_peaks [] = []
sort_peaks (p ∷ ps) = insert_sorted p (sort_peaks ps)

insert_sorted-perm : (p : Peak) (ps : List Peak) → Permᴰ (p ∷ ps) (insert_sorted p ps)
unfolding insert_sorted
insert_sorted-perm p [] = P.refl _
insert_sorted-perm p (q ∷ qs) = elim (Bool-cases (ltb_ℤ q.z p.z)) [
  | inl t ↦
      rw (t, insert_sorted)
        (Permᴰ.trans (Permᴰ.swap refl refl) (Permᴰ.cons refl (insert_sorted-perm p qs)))
  | inr t ↦ rw (t, insert_sorted) (P.refl _)
]

le_of_lt : (a b : ℤ) → ltb_ℤ a b ≡ true → a ≤ℤ b
le_of_lt a b h = ground arith

le_of_not_lt : (a b : ℤ) → ltb_ℤ a b ≡ false → b ≤ℤ a
le_of_not_lt a b h = ground arith

AtLeast-trans : (a b : ℤ) → a ≤ℤ b → (p : Peak) → AtLeast b p → AtLeast a p
AtLeast-trans a b h p k = omega arith

insert_sorted-All :
    (low : ℤ) (p : Peak) (ps : List Peak)
    → AtLeast low p
    → All (AtLeast low) ps
    → All (AtLeast low) (insert_sorted p ps)
unfolding insert_sorted
insert_sorted-All low p [] h a = (h, tt)
insert_sorted-All low p (q ∷ qs) h (k, a) = elim (Bool-cases (ltb_ℤ q.z p.z)) [
  | inl t ↦ rw (t, insert_sorted) (k, insert_sorted-All low p qs h a)
  | inr t ↦ rw (t, insert_sorted) (h, (k, a))
]

insert_sorted-Ascending :
    (p : Peak) (ps : List Peak) → Ascending ps → Ascending (insert_sorted p ps)
unfolding insert_sorted
insert_sorted-Ascending p [] a = (tt, tt)
insert_sorted-Ascending p (q ∷ qs) (h, a) = elim (Bool-cases (ltb_ℤ q.z p.z)) [
  | inl t ↦
      rw (t, insert_sorted)
        (insert_sorted-All q.z p qs (le_of_lt q.z p.z t) h, insert_sorted-Ascending p qs a)
  | inr t ↦
      rw (t, insert_sorted)
        (
          (le_of_not_lt q.z p.z t, All-imp (AtLeast-trans p.z q.z (le_of_not_lt q.z p.z t)) qs h),
          (h, a),
        )
]

sort_peaks-perm : (ps : List Peak) → Permᴰ ps (sort_peaks ps)
unfolding sort_peaks
sort_peaks-perm [] = Permᴰ.nil
sort_peaks-perm (p ∷ ps) =
    Permᴰ.trans (Permᴰ.cons refl (sort_peaks-perm ps)) (insert_sorted-perm p (sort_peaks ps))

sort_peaks-Ascending : (ps : List Peak) → Ascending (sort_peaks ps)
unfolding sort_peaks
sort_peaks-Ascending [] = tt
sort_peaks-Ascending (p ∷ ps) = insert_sorted-Ascending p (sort_peaks ps) (sort_peaks-Ascending ps)

sort_peaks-SortsBySignal : SortsBySignal sort_peaks
sort_peaks-SortsBySignal = record { rearranges = sort_peaks-perm; ascending = sort_peaks-Ascending }

detected_peaks_are_apart_example :
    All
      (IsMaximum default_settings finger)
      (detect sort_peaks default_settings finger new_detector).peaks
    × Separate (detect sort_peaks default_settings finger new_detector).peaks
    × (length (detect sort_peaks default_settings finger new_detector).peaks ≤ 20)
    × Ascending (detect sort_peaks default_settings finger new_detector).peaks
detected_peaks_are_apart_example =
    detected_peaks_are_apart default_settings finger sort_peaks sort_peaks-SortsBySignal
      new_detector

abbrev at : ℕ → ℕ → Peak
at r c = record { r = r; c = c; z = pos 1000; neighbor_signal_sum = pos 3000; id = 0; tz_age = 0 }

abbrev tracked : PeakDetector
tracked = record { peaks = []; prev_peaks = record (at 5 5) { id = 7 } ∷ []; next_peak_id = 8 }

lone_peak_keeps_number_example :
    (p : Peak) × ((track_alone tracked (at 6 5 ∷ at 7 7 ∷ [])).prev_peaks ≡ p ∷ [])
    × (p.id ≡ 7)
    × (p.tz_age % 65536 ≡ 2 % 65536)
lone_peak_keeps_number_example =
    lone_peak_keeps_number (at 6 5 ∷ at 7 7 ∷ []) tracked (record (at 5 5) { id = 7 }) refl
      (omega arith)
