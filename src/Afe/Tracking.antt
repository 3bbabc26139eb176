-- ===== src/Afe/Tracking.antt =====
-- What a frame's tracking decides, and what a session keeps.
use ego_touch_rev.Prelude.{
  ℕ, ◌≤◌, ◌<◌, ◌≡◌, ◌⊎◌, arith, List, [], ◌∷◌, Bool, true, false, ◌^◌, ◌-◌, ◌+◌,
}
use native.Mathlib.Nat.{mod-eq_of_lt}
use ego_touch_rev.Afe.{
  StylusState, BusPort, Afe, AfeCommand, afe_send_command, reset_stylus_state, new_stylus,
}
use ego_touch_rev.Afe.Stylus.{
  process_stylus_status, update_bt_heartbeat, judge, judge_mismatch, judge_noise, expire_pending,
  confirm_switch, check_heartbeat, read_status, add32, sub32, Status,
}
use ego_touch_rev.Afe.Guards.{IsValid, command-IsValid, new_stylus-IsValid}

-- What happens to a stylus: a command, a frame, a frequency report of the pen's MCU, a reset.
pub data Event : Type 0 where
  command : AfeCommand → ℕ → Event
  frame : List ℕ → Event
  heartbeat : ℕ → ℕ → Event
  reset : Event

-- What the last part of a frame leaves: the numbers that only the earlier parts change, and the
-- request if it made one.
pub record Verdict (s : StylusState) (r : Bool × StylusState) : Type 0 where
  pub counted : r.1.frame_counter ≡ s.frame_counter
  pub same_index : r.1.freq_idx ≡ s.freq_idx
  pub same_policy : r.1.switch_policy ≡ s.switch_policy
  pub same_connection : r.1.is_connected ≡ s.is_connected
  pub same_last : r.1.last_switch_frame ≡ s.last_switch_frame
  pub quiet : r.0 ≡ false → r.1.switch_req_pending ≡ s.switch_req_pending
  pub quiet_target : r.0 ≡ false → r.1.switch_target_idx ≡ s.switch_target_idx
  pub quiet_frame : r.0 ≡ false → r.1.switch_req_frame ≡ s.switch_req_frame
  pub asked : r.0 ≡ true → r.1.switch_req_pending ≡ true
  pub asked_frame : r.0 ≡ true → r.1.switch_req_frame ≡ s.frame_counter
  pub asked_target : r.0 ≡ true → r.1.switch_target_idx ≤ 1

judge_noise-Verdict : (w : Status) (s : StylusState) → Verdict s (judge_noise w s)
unfolding judge_noise
judge_noise-Verdict w s = ground arith

pub judge_mismatch-Verdict : (w : Status) (s : StylusState) → Verdict s (judge_mismatch w s)
unfolding judge_mismatch
judge_mismatch-Verdict w s = ground (
  arith,
  judge_noise-Verdict w s,
  judge_noise-Verdict w (record s { bt_mismatch_active = false }),
  judge_noise-Verdict w
      (record s { bt_mismatch_active = true; bt_mismatch_frame = s.frame_counter }),
)

-- The same for all that follows the confirmation: it may also give a pending request up.
pub record Judged (s : StylusState) (r : Bool × StylusState) : Type 0 where
  pub counted : r.1.frame_counter ≡ s.frame_counter
  pub same_index : r.1.freq_idx ≡ s.freq_idx
  pub same_policy : r.1.switch_policy ≡ s.switch_policy
  pub same_connection : r.1.is_connected ≡ s.is_connected
  pub target : s.switch_target_idx ≤ 1 → r.1.switch_target_idx ≤ 1
  pub asked :
      r.0 ≡ true
      → (s.switch_req_pending ≡ false)
        × (r.1.switch_req_pending ≡ true)
        × (r.1.switch_req_frame ≡ s.frame_counter)
        × (r.1.switch_target_idx ≤ 1)
  pub cooled :
      r.0 ≡ true → (s.last_switch_frame ≡ 0) ⊎ (120 ≤ sub32 s.frame_counter s.last_switch_frame)
  pub kept :
      r.0 ≡ false
      → r.1.switch_req_pending ≡ true
      → (s.switch_req_pending ≡ true)
        × (r.1.switch_req_frame ≡ s.switch_req_frame)
        × (sub32 s.frame_counter s.switch_req_frame ≤ 360)
  pub idle_before :
      r.0 ≡ false
      → r.1.switch_req_pending ≡ false
      → s.switch_req_pending ≡ false
      → r.1.last_switch_frame ≡ s.last_switch_frame
  pub given_up :
      r.0 ≡ false
      → r.1.switch_req_pending ≡ false
      → s.switch_req_pending ≡ true
      → r.1.last_switch_frame ≡ s.frame_counter

expire_pending-cases :
    (s : StylusState)
    → ((expire_pending s ≡ s) × (sub32 s.frame_counter s.switch_req_frame ≤ 360))
      ⊎ (expire_pending s
          ≡ record s { switch_req_pending = false; last_switch_frame = s.frame_counter })
unfolding expire_pending
expire_pending-cases s = ground arith

judge-cases :
    (w : Status) (s : StylusState)
    → ((s.switch_req_pending ≡ true) × (judge w s ≡ (false, expire_pending s)))
      ⊎ ((s.switch_req_pending ≡ false) × (judge w s ≡ (false, s)))
      ⊎ ((s.switch_req_pending ≡ false)
          × ((s.last_switch_frame ≡ 0) ⊎ (120 ≤ sub32 s.frame_counter s.last_switch_frame))
          × (judge w s ≡ judge_mismatch w s))
unfolding judge
judge-cases w s = ground arith

pub judge-Judged : (w : Status) (s : StylusState) → Judged s (judge w s)
judge-Judged w s =
    ground (arith, judge-cases w s, expire_pending-cases s, judge_mismatch-Verdict w s)

-- What the count, the heartbeat check and the confirmation make of the state.
unfoldable pub prepare : Status → StylusState → StylusState
prepare w s =
    confirm_switch w (check_heartbeat (record s { frame_counter = add32 s.frame_counter 1 }))

pub record Prepared (w : Status) (s p : StylusState) : Type 0 where
  pub counted : p.frame_counter ≡ add32 s.frame_counter 1
  pub same_policy : p.switch_policy ≡ s.switch_policy
  pub same_connection : p.is_connected ≡ s.is_connected
  pub same_target : p.switch_target_idx ≡ s.switch_target_idx
  pub same_frame : p.switch_req_frame ≡ s.switch_req_frame
  pub index : (p.freq_idx ≡ s.freq_idx) ⊎ (p.freq_idx ≡ s.switch_target_idx)
  pub still_pending :
      p.switch_req_pending ≡ true
      → (s.switch_req_pending ≡ true) × (p.last_switch_frame ≡ s.last_switch_frame)
  pub confirmed :
      p.switch_req_pending ≡ false
      → s.switch_req_pending ≡ true
      → p.last_switch_frame ≡ p.frame_counter
  pub idle_before :
      s.switch_req_pending ≡ false
      → (p.switch_req_pending ≡ false) × (p.last_switch_frame ≡ s.last_switch_frame)

pub prepare-Prepared : (w : Status) (s : StylusState) → Prepared w s (prepare w s)
unfolding prepare confirm_switch check_heartbeat
prepare-Prepared w s = ground arith

-- The three ways a frame goes.
pub process-cases :
    (buffer : List ℕ) (s : StylusState)
    → (process_stylus_status buffer s ≡ (false, s))
      ⊎ (process_stylus_status buffer s
          ≡ (false, record s { frame_counter = add32 s.frame_counter 1 }))
      ⊎ ((s.is_connected ≡ true)
          × (2 ≤ s.switch_policy)
          × (process_stylus_status buffer s
              ≡ judge (read_status buffer) (prepare (read_status buffer) s)))
unfolding process_stylus_status prepare
process-cases buffer s = ground arith

process-IsValid :
    (buffer : List ℕ) (s : StylusState) → IsValid s → IsValid (process_stylus_status buffer s).1
process-IsValid buffer s v = ground (
  arith,
  process-cases buffer s,
  prepare-Prepared (read_status buffer) s,
  judge-Judged (read_status buffer) (prepare (read_status buffer) s),
)

heartbeat-IsValid :
    (freq1 freq2 : ℕ) (s : StylusState) → IsValid s → IsValid (update_bt_heartbeat freq1 freq2 s)
unfolding update_bt_heartbeat
heartbeat-IsValid freq1 freq2 s v = ground arith

module _ {B : Type 0} (port : BusPort B) where
  unfoldable pub step : Event → Afe B → Afe B
  step (command c param) a = (afe_send_command port c param a).1
  step (frame buffer) a = record a { stylus = (process_stylus_status buffer a.stylus).1 }
  step (heartbeat freq1 freq2) a = record a { stylus = update_bt_heartbeat freq1 freq2 a.stylus }
  step reset a = reset_stylus_state port a

  unfoldable pub session : List Event → Afe B → Afe B
  session [] a = a
  session (e ∷ es) a = session es (step e a)

  -- Whatever commands, frames, reports and resets a session has, and whatever the bus answers, the frequency
  -- indices stay 0 or 1, the policy stays off or AUTO, and a request waits only while a pen is
  -- connected.
  pub session-IsValid :
      (es : List Event) (a : Afe B) → IsValid a.stylus → IsValid (session es a).stylus
  unfolding session step reset_stylus_state
  session-IsValid [] a v = v
  session-IsValid (command c param ∷ es) a v =
      session-IsValid es (afe_send_command port c param a).1 (command-IsValid port c param a v)
  session-IsValid (frame buffer ∷ es) a v =
      session-IsValid es (record a { stylus = (process_stylus_status buffer a.stylus).1 })
        (process-IsValid buffer a.stylus v)
  session-IsValid (heartbeat freq1 freq2 ∷ es) a v =
      session-IsValid es (record a { stylus = update_bt_heartbeat freq1 freq2 a.stylus })
        (heartbeat-IsValid freq1 freq2 a.stylus v)
  session-IsValid (reset ∷ es) a v =
      session-IsValid es (record a { stylus = new_stylus }) new_stylus-IsValid

pub sub32-of_le : (a b : ℕ) → b ≤ a → a < 2 ^ 32 → sub32 a b ≡ a - b
unfolding sub32
sub32-of_le a b h small = omega arith

pub add32-one : (a : ℕ) → a + 1 < 2 ^ 32 → add32 a 1 ≡ a + 1
unfolding add32
add32-one a small = mod-eq_of_lt small

-- A frame that asks for a switch finds a connected pen in AUTO mode with no request that it leaves
-- pending, and leaves one that is stamped with its own number and aims at index 0 or 1.
pub request_made :
    (buffer : List ℕ) (s s1 : StylusState)
    → process_stylus_status buffer s ≡ (true, s1)
    → (s.is_connected ≡ true)
      × (2 ≤ s.switch_policy)
      × (s1.switch_req_pending ≡ true)
      × (s1.switch_req_frame ≡ s1.frame_counter)
      × (s1.switch_target_idx ≤ 1)
request_made buffer s s1 h = ground (
  arith,
  process-cases buffer s,
  prepare-Prepared (read_status buffer) s,
  judge-Judged (read_status buffer) (prepare (read_status buffer) s),
)

-- While a request is pending no frame asks for another one, not even the frame that confirms it
-- (as long as the frame counter does not wrap).
pub pending_is_silent :
    (buffer : List ℕ) (s : StylusState)
    → s.switch_req_pending ≡ true
    → s.frame_counter + 1 < 2 ^ 32
    → (process_stylus_status buffer s).0 ≡ false
pending_is_silent buffer s p small = ground (
  arith,
  add32-one s.frame_counter small,
  sub32-of_le (s.frame_counter + 1) (s.frame_counter + 1) (omega arith) small,
  process-cases buffer s,
  prepare-Prepared (read_status buffer) s,
  judge-Judged (read_status buffer) (prepare (read_status buffer) s),
)
