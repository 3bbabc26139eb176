-- ===== src/Himax/Counters.antt =====
-- Bounds that every operation of the chip keeps: the command slot, the count of empty frames and the
-- length of the frame buffer.
use ego_touch_rev.Prelude.{
  ℕ, ◌+◌, ◌%◌, ◌^◌, ◌<◌, ◌≤◌, ◌≡◌, ap, ◌∙◌, inl, inr, arith, List, [], ◌++◌, Bool, true, false, not,
  if◌then◌else◌, length, take, drop, length-append, length-take, length-drop, Bool-cases,
}
use ego_touch_rev.Afe.{
  Afe, connected, afe_start_calibration, reset_stylus_state, new_stylus, unconnected,
}
use ego_touch_rev.Afe.Bus.{
  Follows, PortKeeps, enter_idle-Follows, wakeup-Follows, start_calibration-Follows,
  scan_rate-Follows, command-Follows,
}
use ego_touch_rev.Himax.{DeviceType, master, slave, Board, is_done, Act, on_board}
use ego_touch_rev.Himax.Hal.{Os, get_frame_bytes}
use ego_touch_rev.Himax.Protocol.{send_command}
use ego_touch_rev.Himax.Init.{
  bus_port, init_board, make_ready, init, deinit_board, deinit, hold_board, hold_reset,
  cancel_pending_frame_read,
}
use ego_touch_rev.Himax.Frame.{
  write_at, read_frame, get_idle_frame, count_frame, get_normal_frame, get_frame, chip_port,
}
use ego_touch_rev.Himax.Steady.{
  still, IsSteady, bind-IsSteady, pure-IsSteady, ioctl-IsSteady, Result-cases,
}
use ego_touch_rev.Himax.Steady.Chip.{bus_rules, hx_sense_off-IsSteady}
use ego_touch_rev.Himax.Steady.Setup.{
  init_board-IsSteady, check_bus-IsSteady, set_frame_read_policy-IsSteady, send_command-IsAdvance,
}
use ego_touch_rev.Runtime.Ports.{ChipKeeps}

-- The counters of a board.
pub record InRange (b : Board (Unit {0})) : Type 0 where
  pub slot : b.current_slot < 5
  pub zeros : b.zero_frame_count < 600

-- The chip between two operations: a command slot of the five, fewer empty frames than the threshold,
-- and a frame buffer of its full length.
pub record IsSound {W : Type 0} (a : Afe (Board W)) : Type 0 where
  pub buffer : length a.frame_buffer ≡ 6000
  pub range : InRange (still a.bus)

advance-InRange :
    (b : Board (Unit {0}))
    → InRange b
    → InRange (record b { current_slot = (b.current_slot + 1) % 5 })
advance-InRange b r = ground arith

pub write_at-length :
    (off : ℕ) (bytes buffer : List ℕ)
    → off + length bytes ≤ length buffer
    → length (write_at off bytes buffer) ≡ length buffer
unfolding write_at
write_at-length off bytes buffer fits = omega (
  arith,
  length-append (take off buffer) (bytes ++ drop (off + length bytes) buffer),
  length-append bytes (drop (off + length bytes) buffer),
  length-take off buffer,
  length-drop (off + length bytes) buffer,
)

module _ {W : Type 0} (os : Os W) where
  -- What the controller's bus keeps: all that survives a move of the slot.
  pub bus_port-PortKeeps :
      (Q : Board (Unit {0}) → Type 0)
      → ((s : Board (Unit {0})) → Q s → Q (record s { current_slot = (s.current_slot + 1) % 5 }))
      → PortKeeps (λ b. Q (still b)) (bus_port os)
  unfolding bus_port
  bus_port-PortKeeps Q advance = record {
    send_keeps = λ op value b q.
        rw ((send_command-IsAdvance os master op value).moves b)
          (elim (Bool-cases (is_done (send_command os master op value b).0)) [
            | inl e ↦ rw e (advance (still b) q)
            | inr e ↦ rw e q
          ]);
    policy_keeps = λ block ms b q. rw ((set_frame_read_policy-IsSteady os block ms).keeps b) q;
  }

  in_range : PortKeeps (λ b. InRange (still b)) (bus_port os)
  in_range = bus_port-PortKeeps InRange advance-InRange

  slot_in_range : PortKeeps (λ b. (still b).current_slot < 5) (bus_port os)
  slot_in_range = bus_port-PortKeeps (λ b. b.current_slot < 5) (λ b h. omega arith)

  pub get_frame_bytes-IsSteady : (d : DeviceType) (len : ℕ) → IsSteady (get_frame_bytes os d len)
  unfolding get_frame_bytes
  get_frame_bytes-IsSteady d len =
      bind-IsSteady (ioctl-IsSteady os d 0x4001c28 [] len) (λ r. pure-IsSteady r.0)

  read_frame-IsSound :
      (d : DeviceType) (off len : ℕ) (a : Afe (Board W))
      → off + len ≤ 6000
      → IsSound a
      → IsSound (read_frame os d off len a).1
  unfolding read_frame
  read_frame-IsSound d off len a fits s =
      let same = (get_frame_bytes-IsSteady d len).keeps a.bus in
      let range : InRange (still (get_frame_bytes os d len a.bus).1) = rw same s.range in
      elim (Result-cases (get_frame_bytes os d len a.bus).0) [
        | inl (bytes, e) ↦
            let fit =
              write_at-length off (take len bytes) a.frame_buffer
                (omega (arith, length-take len bytes, s.buffer)) in
            rw (e, read_frame) (record { buffer = fit ∙ s.buffer; range = range })
        | inr (c, e) ↦ rw (e, read_frame) (record { buffer = s.buffer; range = range })
      ]

  count_frame-IsSound :
      (skipped : Bool) (a : Afe (Board W)) → IsSound a → IsSound (count_frame os skipped a)
  unfolding count_frame
  count_frame-IsSound skipped a s =
      let b = record (a.bus) {
        last_master_was_read = not skipped;
        frame_count = (a.bus.frame_count + 1) % 2 ^ 32;
        zero_frame_count = (a.bus.zero_frame_count + 1) % 2 ^ 32;
        stylus_active = false;
      } in
      ground (arith, enter_idle-Follows slot_in_range 0 (record a { bus = b }))

  -- What follows the controller's rules stays sound.
  Follows-IsSound :
      (a a' : Afe (Board W)) → Follows (λ b. InRange (still b)) a a' → IsSound a → IsSound a'
  Follows-IsSound a a' f s = record {
    buffer = ap length f.buffer ∙ s.buffer;
    range = f.bus s.range;
  }

  either-IsSound :
      {A : Type 0} (t : Bool) (x y : A × Afe (Board W))
      → IsSound x.1
      → IsSound y.1
      → IsSound (if t then x else y).1
  either-IsSound true x y sx sy = sx
  either-IsSound false x y sx sy = sy

  get_idle_frame-IsSound : (a : Afe (Board W)) → IsSound a → IsSound (get_idle_frame os a).1
  unfolding get_idle_frame
  get_idle_frame-IsSound a s =
      let s1 = read_frame-IsSound master 0 5063 a (omega arith) s in
      let a1 = (read_frame os master 0 5063 a).1 in
      let s2 = read_frame-IsSound slave 5063 339 a1 (omega arith) s1 in
      let a2 = (read_frame os slave 5063 339 a1).1 in
      search (either-IsSound, s2, Follows-IsSound a2 _ (wakeup-Follows in_range a2) s2)

  get_normal_frame-IsSound : (a : Afe (Board W)) → IsSound a → IsSound (get_normal_frame os a).1
  unfolding get_normal_frame
  get_normal_frame-IsSound a s =
      let s1 = read_frame-IsSound slave 5063 339 a (omega arith) s in
      let a1 = (read_frame os slave 5063 339 a).1 in
      let s2 = read_frame-IsSound master 0 5063 a1 (omega arith) s1 in
      let a2 = (read_frame os master 0 5063 a1).1 in
      search
        (either-IsSound, s1, s2, count_frame-IsSound true a1 s1, count_frame-IsSound false a2 s2)

  -- A frame, in either mode and whatever the reads answer, keeps the chip sound.
  pub get_frame-IsSound : (a : Afe (Board W)) → IsSound a → IsSound (get_frame os a).1
  unfolding get_frame
  get_frame-IsSound a s =
      search (either-IsSound, get_idle_frame-IsSound a s, get_normal_frame-IsSound a s)

  on_board-IsSound :
      {A : Type 0} {m : Act W A} (a : Afe (Board W))
      → IsSteady m
      → IsSound a
      → IsSound (on_board m a).1
  on_board-IsSound a steady s = record {
    buffer = s.buffer;
    range = rw (steady.keeps a.bus) s.range;
  }

  make_ready-IsSound : (a : Afe (Board W)) → IsSound a → IsSound (make_ready os a)
  unfolding make_ready reset_stylus_state
  make_ready-IsSound a s =
      let a1 = record a { conn_state = connected; stylus = new_stylus } in
      let s1 : IsSound a1 = record { buffer = s.buffer; range = s.range } in
      let a2 = (afe_start_calibration (bus_port os) 0 a1).1 in
      Follows-IsSound a2 _ (scan_rate-Follows in_range 0 a2)
        (Follows-IsSound a1 a2 (start_calibration-Follows in_range 0 a1) s1)

  init-IsSound : (a : Afe (Board W)) → IsSound a → IsSound (init os a).1
  unfolding init
  init-IsSound a s =
      let s1 = on_board-IsSound a (init_board-IsSteady os) s in
      search (either-IsSound, make_ready-IsSound (on_board (init_board os) a).1 s1, s1)

  deinit_board-IsSteady : (check_en : Bool) → IsSteady (deinit_board os check_en)
  unfolding deinit_board
  deinit_board-IsSteady check_en = search (bus_rules, hx_sense_off-IsSteady) depth 12

  hold_board-IsSteady : IsSteady (hold_board os)
  unfolding hold_board
  hold_board-IsSteady = search bus_rules depth 12

  deinit-IsSound :
      (check_en : Bool) (a : Afe (Board W)) → IsSound a → IsSound (deinit os check_en a)
  unfolding deinit
  deinit-IsSound check_en a s =
      on_board-IsSound (record a { conn_state = unconnected }) (deinit_board-IsSteady check_en)
        (record { buffer = s.buffer; range = s.range })

  cancel-still : (b : Board W) → still (cancel_pending_frame_read os b) ≡ still b
  cancel-still b = ground arith

  hold_reset-IsSound : (a : Afe (Board W)) → IsSound a → IsSound (hold_reset os a)
  unfolding hold_reset
  hold_reset-IsSound a s =
      on_board-IsSound
        (record a { conn_state = unconnected; bus = cancel_pending_frame_read os a.bus })
        hold_board-IsSteady (record { buffer = s.buffer; range = rw (cancel-still a.bus) s.range })

  -- Every operation that the runtime calls on the chip, and every command, keeps the chip sound.
  pub chip_port-keeps : ChipKeeps IsSound (bus_port os) (chip_port os)
  unfolding chip_port
  chip_port-keeps = record {
    command = λ c param a s. Follows-IsSound a _ (command-Follows in_range c param a) s;
    stylus = λ a st s. record { buffer = s.buffer; range = s.range };
    init = init-IsSound;
    deinit = deinit-IsSound false;
    check_bus = λ a s. on_board-IsSound a (check_bus-IsSteady os) s;
    get_frame = get_frame-IsSound;
    hold_reset = hold_reset-IsSound;
    cancel = λ a s. record { buffer = s.buffer; range = rw (cancel-still a.bus) s.range };
  }
