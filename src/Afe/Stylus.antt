-- ===== src/Afe/Stylus.antt =====
-- ProcessStylusStatus and UpdateBtHeartbeat: which frequency the pen's frames should use.
use ego_touch_rev.Prelude.{
  ℕ, ◌+◌, ◌-◌, ◌*◌, ◌%◌, ◌^◌, List, Bool, true, false, not, ◌&&◌, ◌||◌, ltb, leb, ◌==◌,
  if◌then◌else◌, length, get_or,
}
use ego_touch_rev.Afe.{StylusState}

-- `uint32` sums and differences wrap.
unfoldable pub add32 : ℕ → ℕ → ℕ
add32 a b = (a + b) % 2 ^ 32

unfoldable pub sub32 : ℕ → ℕ → ℕ
sub32 a b = (a + 2 ^ 32 - b) % 2 ^ 32

-- A little-endian word of the frame buffer.
unfoldable pub read_u16 : List ℕ → ℕ → ℕ
read_u16 buffer off = get_or buffer off 0 + 256 * get_or buffer (off + 1) 0

abbrev pub master_status_offset : ℕ
master_status_offset = 4807

-- The words of the master's status table that the tracking reads.
pub record Status : Type 0 where
  pub f0_noise : ℕ
  pub f1_noise : ℕ
  pub freq_done : ℕ
  pub tp_freq1 : ℕ

unfoldable pub read_status : List ℕ → Status
unfolding read_u16
read_status buffer = record {
  f0_noise = read_u16 buffer (master_status_offset + 0x1C);
  f1_noise = read_u16 buffer (master_status_offset + 0x20);
  freq_done = read_u16 buffer (master_status_offset + 0x04);
  tp_freq1 = read_u16 buffer (master_status_offset + 0x10);
}

-- The MCU has been silent for a second, or for a minute.
unfoldable pub check_heartbeat : StylusState → StylusState
check_heartbeat s =
    let age = sub32 s.frame_counter s.bt_last_seen_frame in
    if s.bt_active
    then record s {
      bt_pressure_cleared = s.bt_pressure_cleared || ltb 120 age;
      bt_active = not (ltb 7200 age);
    }
    else s

-- The chip reports that the switch is done.
unfoldable pub confirm_switch : Status → StylusState → StylusState
confirm_switch w s =
    if not (w.freq_done == 0) && s.switch_req_pending
    then record s {
      freq_idx = s.switch_target_idx;
      switch_req_pending = false;
      last_switch_frame = s.frame_counter;
      bt_mismatch_active = false;
    }
    else s

-- The pending request gives up after 360 frames.
unfoldable pub expire_pending : StylusState → StylusState
expire_pending s =
    if ltb 360 (sub32 s.frame_counter s.switch_req_frame)
    then record s { switch_req_pending = false; last_switch_frame = s.frame_counter }
    else s

-- A request to switch to `target`.
abbrev pub request : ℕ → StylusState → StylusState
request target s = record s {
  switch_target_idx = target;
  switch_req_pending = true;
  switch_req_frame = s.frame_counter;
}

-- The noise comparison, which is the last thing that a frame looks at. On `int`,
-- `f0 - f1 >= 5001` is `f1 + 5001 <= f0`.
unfoldable pub judge_noise : Status → StylusState → Bool × StylusState
judge_noise w s =
    if leb (w.f1_noise + 5001) w.f0_noise && not (s.freq_idx == 1)
    then (true, request 1 s)
    else if ltb (w.f0_noise + 5000) w.f1_noise && not (s.freq_idx == 0)
    then (true, request 0 s)
    else (false, s)

-- The mismatch between the pen's frequency and the panel's, debounced over four frames.
unfoldable pub judge_mismatch : Status → StylusState → Bool × StylusState
unfolding judge_noise
judge_mismatch w s =
    if s.bt_active && (not (w.tp_freq1 == 0) && not (s.bt_freq1 == 0))
    then (if w.tp_freq1 == s.bt_freq1
        then judge_noise w (record s { bt_mismatch_active = false })
        else if s.bt_mismatch_active
        then (if ltb 4 (sub32 s.frame_counter s.bt_mismatch_frame)
            then (
              true,
              record (request (if s.bt_freq1 == s.freq_pair.freq1_cmd then 1 else 0) s) {
                bt_mismatch_active = false;
              },
            )
            else judge_noise w s)
        else judge_noise w
            (record s { bt_mismatch_active = true; bt_mismatch_frame = s.frame_counter }))
    else judge_noise w s

-- What follows the confirmation: a pending request is only aged, and a fresh switch is left alone
-- for 120 frames.
unfoldable pub judge : Status → StylusState → Bool × StylusState
unfolding expire_pending judge_mismatch
judge w s =
    if s.switch_req_pending
    then (false, expire_pending s)
    else if not (s.last_switch_frame == 0) && ltb (sub32 s.frame_counter s.last_switch_frame) 120
    then (false, s)
    else judge_mismatch w s

-- `true` asks the caller to send ForceToFreqPoint.
unfoldable pub process_stylus_status : List ℕ → StylusState → Bool × StylusState
unfolding judge check_heartbeat confirm_switch
process_stylus_status buffer s =
    if not s.is_connected || ltb s.switch_policy 2
    then (false, s)
    else (let counted = record s { frame_counter = add32 s.frame_counter 1 } in
        if ltb (length buffer) (master_status_offset + 0x20 + 2)
        then (false, counted)
        else (let w = read_status buffer in judge w (confirm_switch w (check_heartbeat counted))))

unfoldable pub update_bt_heartbeat : ℕ → ℕ → StylusState → StylusState
update_bt_heartbeat freq1 freq2 s =
    if not s.is_connected || (freq1 == 0 && freq2 == 0) then s else record s {
      bt_freq1 = freq1;
      bt_freq2 = freq2;
      bt_active = true;
      bt_last_seen_frame = s.frame_counter;
      bt_pressure_cleared = false;
    }
