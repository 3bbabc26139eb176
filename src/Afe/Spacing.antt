-- ===== src/Afe/Spacing.antt =====
-- How far apart the requests of a session are, and that none waits for ever.
use ego_touch_rev.Prelude.{
  ℕ, ◌≤◌, ◌<◌, ◌≡◌, ◌⊎◌, refl, arith, List, [], ◌∷◌, Bool, true, false, if◌then◌else◌, not, ◌||◌,
  ◌^◌, ◌+◌, length, All, inl, inr, Bool-cases,
}
use ego_touch_rev.Afe.{StylusState}
use ego_touch_rev.Afe.Stylus.{process_stylus_status, judge, read_status, master_status_offset}
use ego_touch_rev.Afe.Tracking.{
  judge-Judged, prepare, prepare-Prepared, process-cases, pending_is_silent, sub32-of_le, add32-one,
  pending_is_silent,
}

-- The frame numbers at which a run of frames asks for a switch.
unfoldable pub requests : List (List ℕ) → StylusState → List ℕ
requests [] s = []
requests (buffer ∷ buffers) s =
    let (ask, s1) = process_stylus_status buffer s in
    let rest = requests buffers s1 in if ask then s1.frame_counter ∷ rest else rest

-- Each number is at least `gap` above the one before it, the first above `from`.
unfoldable pub Spaced : ℕ → ℕ → List ℕ → Type 0
Spaced gap from [] = Unit
Spaced gap from (x ∷ xs) = (from + gap ≤ x) × Spaced gap x xs

-- A request was made in frame `from` and is pending, or a switch was settled after it.
abbrev pub After : ℕ → StylusState → Type 0
After from s =
    ((s.switch_req_pending ≡ true) × (from ≤ s.frame_counter))
    ⊎ ((s.switch_req_pending ≡ false)
        × (from < s.last_switch_frame)
        × (s.last_switch_frame ≤ s.frame_counter))

frame-After :
    (buffer : List ℕ) (from : ℕ) (s : StylusState)
    → s.frame_counter + 1 < 2 ^ 32
    → After from s
    → (process_stylus_status buffer s).0 ≡ false
    → After from (process_stylus_status buffer s).1
frame-After buffer from s small h quiet = ground (
  arith,
  process-cases buffer s,
  prepare-Prepared (read_status buffer) s,
  judge-Judged (read_status buffer) (prepare (read_status buffer) s),
  add32-one s.frame_counter small,
)

frame-counter :
    (buffer : List ℕ) (s : StylusState)
    → s.frame_counter + 1 < 2 ^ 32
    → (process_stylus_status buffer s).1.frame_counter ≤ s.frame_counter + 1
frame-counter buffer s small = ground (
  arith,
  process-cases buffer s,
  prepare-Prepared (read_status buffer) s,
  judge-Judged (read_status buffer) (prepare (read_status buffer) s),
  add32-one s.frame_counter small,
)

frame-asks :
    (buffer : List ℕ) (from : ℕ) (s : StylusState)
    → s.frame_counter + 1 < 2 ^ 32
    → After from s
    → (process_stylus_status buffer s).0 ≡ true
    → (from + 121 ≤ (process_stylus_status buffer s).1.frame_counter)
      × After (process_stylus_status buffer s).1.frame_counter (process_stylus_status buffer s).1
frame-asks buffer from s small h ask = ground (
  arith,
  process-cases buffer s,
  prepare-Prepared (read_status buffer) s,
  judge-Judged (read_status buffer) (prepare (read_status buffer) s),
  add32-one s.frame_counter small,
  sub32-of_le (s.frame_counter + 1) (s.frame_counter + 1) (omega arith) small,
  sub32-of_le (s.frame_counter + 1) s.last_switch_frame,
)

-- Once a request has been made, the requests of the frames that follow are at least 121 frames apart,
-- whatever the frames hold, as long as the frame counter does not wrap.
pub requests_keep_apart :
    (buffers : List (List ℕ)) (from : ℕ) (s : StylusState)
    → s.frame_counter + length buffers < 2 ^ 32
    → After from s
    → Spaced 121 from (requests buffers s)
unfolding requests Spaced
requests_keep_apart [] from s small h = tt
requests_keep_apart (buffer ∷ buffers) from s small h =
    let small1 = frame-counter buffer s (omega arith) in
    elim (Bool-cases (process_stylus_status buffer s).0) [
      | inl ask ↦
          let (far, next) = frame-asks buffer from s (omega arith) h ask in
          rw ask (
            far,
            requests_keep_apart buffers (process_stylus_status buffer s).1.frame_counter
                (process_stylus_status buffer s).1 (omega arith) next,
          )
      | inr quiet ↦ rw quiet (
          requests_keep_apart buffers from (process_stylus_status buffer s).1 (omega arith)
            (frame-After buffer from s (omega arith) h quiet))
    ]

-- Some state of the run has no pending request.
unfoldable pub settles : List (List ℕ) → StylusState → Bool
settles [] s = not s.switch_req_pending
settles (buffer ∷ buffers) s =
    not s.switch_req_pending || settles buffers (process_stylus_status buffer s).1

or-right : (b : Bool) {c : Bool} → c ≡ true → (b || c) ≡ true
or-right true h = refl
or-right false h = h

settles-now :
    (buffers : List (List ℕ)) (s : StylusState)
    → s.switch_req_pending ≡ false
    → settles buffers s ≡ true
unfolding settles
settles-now [] s h = rw h refl
settles-now (buffer ∷ buffers) s h = rw h refl

abbrev pub IsFull : List ℕ → Type 0
IsFull buffer = master_status_offset + 0x20 + 2 ≤ length buffer

process-full :
    (buffer : List ℕ) (s : StylusState)
    → IsFull buffer
    → s.is_connected ≡ true
    → 2 ≤ s.switch_policy
    → process_stylus_status buffer s ≡ judge (read_status buffer) (prepare (read_status buffer) s)
unfolding process_stylus_status prepare
process-full buffer s full c auto = ground arith

frame-waits :
    (buffer : List ℕ) (s : StylusState)
    → IsFull buffer
    → s.is_connected ≡ true
    → 2 ≤ s.switch_policy
    → s.switch_req_frame ≤ s.frame_counter
    → s.frame_counter + 1 < 2 ^ 32
    → let s1 = (process_stylus_status buffer s).1 in
      s1.switch_req_pending ≡ true
      → s.switch_req_pending ≡ true
      → (s1.is_connected ≡ true)
        × (2 ≤ s1.switch_policy)
        × (s1.switch_req_frame ≡ s.switch_req_frame)
        × (s1.frame_counter ≡ s.frame_counter + 1)
        × (s1.frame_counter ≤ s1.switch_req_frame + 360)
frame-waits buffer s full c auto le small p1 p = ground (
  arith,
  process-full buffer s full c auto,
  prepare-Prepared (read_status buffer) s,
  judge-Judged (read_status buffer) (prepare (read_status buffer) s),
  add32-one s.frame_counter small,
  sub32-of_le (s.frame_counter + 1) s.switch_req_frame (omega arith) small,
  pending_is_silent buffer s p small,
)

-- A request does not wait for ever: a connected pen in AUTO mode whose request is at most 360 frames
-- old reaches a state with no pending request within the full frames that bring the age past 360,
-- whatever they hold (as long as the frame counter does not wrap).
pub requests_settle :
    (buffers : List (List ℕ)) (s : StylusState)
    → All IsFull buffers
    → s.is_connected ≡ true
    → 2 ≤ s.switch_policy
    → s.switch_req_frame ≤ s.frame_counter
    → s.frame_counter ≤ s.switch_req_frame + 360
    → s.switch_req_frame + 360 < s.frame_counter + length buffers
    → s.frame_counter + length buffers < 2 ^ 32
    → settles buffers s ≡ true
unfolding settles
requests_settle [] s full c auto le age long small = ground arith
requests_settle (buffer ∷ buffers) s (f, full) c auto le age long small =
    elim (Bool-cases s.switch_req_pending) [
      | inr settled ↦ rw settled refl
      | inl p ↦
          or-right (not s.switch_req_pending)
            (elim (Bool-cases (process_stylus_status buffer s).1.switch_req_pending) [
              | inl p1 ↦
                  let (c1, auto1, same, count, young) =
                    frame-waits buffer s f c auto le (omega arith) p1 p in
                  requests_settle buffers (process_stylus_status buffer s).1 full c1 auto1
                    (omega arith) (omega arith) (omega arith) (omega arith)
              | inr settled ↦ settles-now buffers (process_stylus_status buffer s).1 settled
            ])
    ]
