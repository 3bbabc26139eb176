-- ===== src/Peaks/Numbers.antt =====
-- TrackPeakIDs: the number of a peak over the frames.
use mathlib.Core.Path.{subst}
use ego_touch_rev.Prelude.{ap, ℕ, ◌+◌, ◌%◌, ◌≤◌, ◌≡◌, refl, sym, arith, List, [], ◌∷◌, length}
use ego_touch_rev.Peaks.{Peak}
use ego_touch_rev.Peaks.Track.{
  PeakDetector, manhattan, nearest, match_peaks, assign_ids, track_peak_ids,
}

-- Frames with one peak each, given before they are numbered.
unfoldable pub track_alone : PeakDetector → List Peak → PeakDetector
track_alone d [] = d
track_alone d (p ∷ ps) = track_alone (track_peak_ids (record d { peaks = p ∷ [] })) ps

-- Every peak is at most three cells away from the one before.
abbrev pub Steps : Peak → List Peak → Type 0
Steps p [] = Unit
Steps p (q ∷ ps) = (manhattan q p ≤ 3) × Steps q ps

one_step :
    (q p : Peak) (next : ℕ)
    → manhattan p q ≤ 3
    → assign_ids (q ∷ []) (p ∷ []) next
      ≡ (record p { id = q.id; tz_age = (q.tz_age + 1) % 65536 } ∷ [], next)
unfolding match_peaks nearest
one_step q p next h = ground arith

after_step :
    (d : PeakDetector) (q p : Peak)
    → d.prev_peaks ≡ q ∷ []
    → manhattan p q ≤ 3
    → (track_peak_ids (record d { peaks = p ∷ [] })).prev_peaks
      ≡ record p { id = q.id; tz_age = (q.tz_age + 1) % 65536 } ∷ []
unfolding track_peak_ids
after_step d q p e h =
    subst
      (λ prev.
        (assign_ids prev (p ∷ []) d.next_peak_id).0
        ≡ record p { id = q.id; tz_age = (q.tz_age + 1) % 65536 } ∷ [])
      (sym e) (ap (λ t. t.0) (one_step q p d.next_peak_id h))

Steps-stamped :
    (p : Peak) (i a : ℕ) (ps : List Peak) → Steps p ps → Steps (record p { id = i; tz_age = a }) ps
Steps-stamped p i a [] s = tt
Steps-stamped p i a (q ∷ ps) s = s

-- A peak that is alone on every frame and moves by at most three cells from frame to frame keeps its
-- number, and its age counts the frames, modulo 65536.
pub lone_peak_keeps_number :
    (ps : List Peak) (d : PeakDetector) (q : Peak)
    → d.prev_peaks ≡ q ∷ []
    → Steps q ps
    → (p : Peak) × ((track_alone d ps).prev_peaks ≡ p ∷ [])
      × (p.id ≡ q.id)
      × (p.tz_age % 65536 ≡ (q.tz_age + length ps) % 65536)
unfolding track_alone
lone_peak_keeps_number [] d q e s = (q, e, refl, omega arith)
lone_peak_keeps_number (p ∷ ps) d q e (h, s) =
    let (r, f, i, a) =
      lone_peak_keeps_number ps (track_peak_ids (record d { peaks = p ∷ [] }))
        (record p { id = q.id; tz_age = (q.tz_age + 1) % 65536 }) (after_step d q p e h)
        (Steps-stamped p q.id ((q.tz_age + 1) % 65536) ps s) in
    (r, f, i, omega (arith, a))
