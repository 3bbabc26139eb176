-- ===== src/Afe/Tests.antt =====
-- A pen on a bus that accepts everything, and the theorems at it.
use ego_touch_rev.Prelude.{ℕ, ◌≡◌, refl, arith, List, [], ◌∷◌, true, replicate, inl, ◌++◌}
use ego_touch_rev.Afe.{
  ok, unconnected, connected, init_stylus, set_stylus_id, StylusState, new_stylus, BusPort, Afe,
  normal, afe_send_command, afe_init_stylus, afe_enable_freq_shift,
}
use ego_touch_rev.Afe.Stylus.{
  process_stylus_status, judge, judge_mismatch, judge_noise, expire_pending, confirm_switch,
  check_heartbeat, read_status, read_u16, add32, sub32,
}
use ego_touch_rev.Afe.Guards.{IsValid, new_stylus-IsValid}
use ego_touch_rev.Afe.Tracking.{command, frame, heartbeat, session, session-IsValid}
use ego_touch_rev.Afe.Spacing.{requests, Spaced, requests_keep_apart, settles, requests_settle}

-- The bus keeps the commands that it was sent, the newest first.
abbrev recorder : BusPort (List (ℕ × ℕ))
recorder = record {
  send_command = λ op value b. (ok, (op, value) ∷ b);
  set_frame_read_policy = λ on ms b. (ok, b);
}

abbrev idle_afe : Afe (List (ℕ × ℕ))
idle_afe = record {
  conn_state = connected;
  afe_mode = normal;
  frame_buffer = [];
  bus = [];
  stylus = new_stylus;
}

abbrev unplugged : Afe (List (ℕ × ℕ))
unplugged = record idle_afe { conn_state = unconnected }

abbrev paired : StylusState
paired = record new_stylus { is_connected = true; switch_policy = 2; frame_counter = 500 }

abbrev waiting : StylusState
waiting = record paired { switch_req_pending = true; switch_req_frame = 140; switch_target_idx = 1 }

-- A full frame of zeros, and one whose noise on the first frequency is 256 * 20.
abbrev quiet_frame : List ℕ
quiet_frame = replicate 4900 0

abbrev noisy_frame : List ℕ
noisy_frame = replicate 4836 0 ++ 20 ∷ replicate 63 0

abbrev initialised : Afe (List (ℕ × ℕ))
initialised = record idle_afe {
  bus = (0x0d, 0) ∷ [];
  stylus = record new_stylus { is_connected = true; switch_policy = 2 };
}

init_sends_one_command : afe_send_command recorder init_stylus 2 idle_afe ≡ (ok, initialised)
unfolding afe_send_command afe_init_stylus afe_enable_freq_shift
init_sends_one_command = refl

session-IsValid_example :
    IsValid
      (session recorder
        (command init_stylus 2 ∷ command set_stylus_id 2 ∷ heartbeat 3 4 ∷ frame noisy_frame ∷ [])
        idle_afe).stylus
session-IsValid_example =
    session-IsValid recorder
      (command init_stylus 2 ∷ command set_stylus_id 2 ∷ heartbeat 3 4 ∷ frame noisy_frame ∷ [])
      idle_afe new_stylus-IsValid

abbrev asked : StylusState
asked = record paired {
  frame_counter = 501;
  switch_req_pending = true;
  switch_req_frame = 501;
  switch_target_idx = 1;
}

noisy_frame_asks : process_stylus_status noisy_frame paired ≡ (true, asked)
unfolding process_stylus_status judge judge_mismatch judge_noise expire_pending confirm_switch
    check_heartbeat read_status read_u16 add32 sub32
noisy_frame_asks = refl

requests_keep_apart_example : Spaced 121 140 (requests (quiet_frame ∷ noisy_frame ∷ []) waiting)
requests_keep_apart_example =
    requests_keep_apart (quiet_frame ∷ noisy_frame ∷ []) 140 waiting (omega arith)
      (inl (refl, omega arith))

requests_settle_example : settles (quiet_frame ∷ []) waiting ≡ true
requests_settle_example =
    requests_settle (quiet_frame ∷ []) waiting (omega arith, tt) refl (omega arith) (omega arith)
      (omega arith) (omega arith) (omega arith)
