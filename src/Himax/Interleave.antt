-- ===== src/Himax/Interleave.antt =====
-- Which frames read the master: with a pen every other one may leave it out.
use ego_touch_rev.Prelude.{
  ℕ, ◌+◌, ◌%◌, ◌^◌, ◌≡◌, ◌≢◌, inl, inr, ap, ◌∙◌, arith, refl, ◌⊎◌, List, take, Bool, true, false,
  not, Bool-cases,
}
use ego_touch_rev.Afe.{ok, Afe}
use ego_touch_rev.Afe.Bus.{enter_idle-Follows}
use ego_touch_rev.Himax.{DeviceType, master, slave, Board, Result, done, is_done}
use ego_touch_rev.Himax.Hal.{Os, get_frame_bytes}
use ego_touch_rev.Himax.Frame.{
  read_frame, read_error, skips_master, count_frame, get_normal_frame, write_at,
}
use ego_touch_rev.Himax.Steady.{still, Result-cases}
use ego_touch_rev.Himax.Counters.{bus_port-PortKeeps, get_frame_bytes-IsSteady}

-- What a good frame leaves in the counters.
pub record Counted {W : Type 0} (skipped : Bool) (a a' : Afe (Board W)) : Type 0 where
  pub count : a'.bus.frame_count ≡ (a.bus.frame_count + 1) % 2 ^ 32
  pub was_read : a'.bus.last_master_was_read ≡ not skipped
  pub buffer : a'.frame_buffer ≡ a.frame_buffer

parity : (n : ℕ) → n % 2 ≡ 1 → (n + 1) % 2 ^ 32 % 2 ≡ 0
parity n h = omega arith

module _ {W : Type 0} (os : Os W) where
  count_frame-Counted :
      (skipped : Bool) (a : Afe (Board W)) → Counted skipped a (count_frame os skipped a)
  unfolding count_frame
  count_frame-Counted skipped a =
      let b = record (a.bus) {
        last_master_was_read = not skipped;
        frame_count = (a.bus.frame_count + 1) % 2 ^ 32;
        zero_frame_count = (a.bus.zero_frame_count + 1) % 2 ^ 32;
        stylus_active = false;
      } in
      let keeps =
        bus_port-PortKeeps os
          (λ s.
            (s.frame_count ≡ (a.bus.frame_count + 1) % 2 ^ 32)
            × (s.last_master_was_read ≡ not skipped))
          (λ s h. h) in
      ground (arith, enter_idle-Follows keeps 0 (record a { bus = b }))

  -- A read leaves the counters and the flags.
  read_frame-still :
      (d : DeviceType) (off len : ℕ) (a : Afe (Board W))
      → still (read_frame os d off len a).1.bus ≡ still a.bus
  unfolding read_frame
  read_frame-still d off len a =
      let same = (get_frame_bytes-IsSteady os d len).keeps a.bus in
      elim (Result-cases (get_frame_bytes os d len a.bus).0) [
        | inl (bytes, e) ↦ rw (e, read_frame) same
        | inr (c, e) ↦ rw (e, read_frame) same
      ]

  error-ok :
      (d : DeviceType) (r : Result (Unit {0})) (b : Board W)
      → is_done r ≡ false
      → read_error os d r b ≢ ok
  error-ok d r b h e = ground arith

  read-Counted :
      (a a1 a' : Afe (Board W)) (skipped : Bool)
      → still a1.bus ≡ still a.bus
      → Counted skipped a1 a'
      → (a'.bus.frame_count ≡ (a.bus.frame_count + 1) % 2 ^ 32)
        × (a'.bus.last_master_was_read ≡ not skipped)
  read-Counted a a1 a' skipped same c =
      (c.count ∙ ap (λ b. (b.frame_count + 1) % 2 ^ 32) same, c.was_read)

  -- A good frame took the master's bytes into the front of the buffer, behind the read of the slave.
  pub record ReadMaster (a a' : Afe (Board W)) : Type 0 where
    pub bytes : List ℕ
    pub answer :
        (get_frame_bytes os master 5063 (read_frame os slave 5063 339 a).1.bus).0 ≡ done bytes
    pub buffer :
        a'.frame_buffer
        ≡ write_at 0 (take 5063 bytes) (read_frame os slave 5063 339 a).1.frame_buffer

  -- What a read of the master that succeeds puts into the buffer.
  master_bytes :
      (a : Afe (Board W))
      → is_done (read_frame os master 0 5063 a).0 ≡ true
      → (bytes : List ℕ) × ((get_frame_bytes os master 5063 a.bus).0 ≡ done bytes)
        × ((read_frame os master 0 5063 a).1.frame_buffer
            ≡ write_at 0 (take 5063 bytes) a.frame_buffer)
  unfolding read_frame
  master_bytes a h = elim (Result-cases (get_frame_bytes os master 5063 a.bus).0) [
    | inl (bytes, e) ↦ (bytes, e, rw (e, read_frame) refl)
    | inr (c, e) ↦
        let no : is_done (read_frame os master 0 5063 a).0 ≡ false = rw (e, read_frame) refl in
        absurd (ground (arith, h, no))
  ]

  get_normal_frame-counts :
      (a : Afe (Board W))
      → (get_normal_frame os a).0 ≡ ok
      → ((get_normal_frame os a).1.bus.frame_count ≡ (a.bus.frame_count + 1) % 2 ^ 32)
        × ((get_normal_frame os a).1.bus.last_master_was_read ≡ not (skips_master os a.bus))
  unfolding get_normal_frame
  get_normal_frame-counts a =
      let s = (read_frame os slave 5063 339 a).0 in
      let a1 = (read_frame os slave 5063 339 a).1 in
      let m = (read_frame os master 0 5063 a1).0 in
      let a2 = (read_frame os master 0 5063 a1).1 in
      let same = read_frame-still slave 5063 339 a in
      elim (Bool-cases (is_done s)) [
        | inr e ↦ rw (e, get_normal_frame) (λ h. absurd (error-ok slave s a1.bus e h))
        | inl e ↦ elim (Bool-cases (skips_master os a.bus)) [
          | inl t ↦
              rw (e, t, get_normal_frame)
                (λ h. read-Counted a a1 _ true same (count_frame-Counted true a1))
          | inr t ↦ elim (Bool-cases (is_done m)) [
            | inr f ↦ rw (e, t, f, get_normal_frame) (λ h. absurd (error-ok master m a2.bus f h))
            | inl f ↦
                rw (e, t, f, get_normal_frame)
                  (λ h.
                    read-Counted a a2 _ false (read_frame-still master 0 5063 a1 ∙ same)
                      (count_frame-Counted false a2))
          ]
        ]
      ]

  -- A good frame that does not leave the master out has read it.
  get_normal_frame-reads :
      (a : Afe (Board W))
      → skips_master os a.bus ≡ false
      → (get_normal_frame os a).0 ≡ ok
      → ReadMaster a (get_normal_frame os a).1
  unfolding get_normal_frame
  get_normal_frame-reads a t =
      let s = (read_frame os slave 5063 339 a).0 in
      let a1 = (read_frame os slave 5063 339 a).1 in
      let m = (read_frame os master 0 5063 a1).0 in
      let a2 = (read_frame os master 0 5063 a1).1 in
      elim (Bool-cases (is_done s)) [
        | inr e ↦ rw (e, get_normal_frame) (λ h. absurd (error-ok slave s a1.bus e h))
        | inl e ↦ elim (Bool-cases (is_done m)) [
          | inr f ↦ rw (e, t, f, get_normal_frame) (λ h. absurd (error-ok master m a2.bus f h))
          | inl f ↦
              let (bytes, answer, buffer) = master_bytes a1 f in
              rw (e, t, f, get_normal_frame)
                (λ h. record {
                  bytes = bytes;
                  answer = answer;
                  buffer = (count_frame-Counted false a2).buffer ∙ buffer;
                })
        ]
      ]

  -- The frame has read the master and says so.
  abbrev pub Reads : Afe (Board W) → Afe (Board W) → Type 0
  Reads a a' = ReadMaster a a' × (a'.bus.last_master_was_read ≡ true)

  good_frame-Reads :
      (a : Afe (Board W))
      → skips_master os a.bus ≡ false
      → (get_normal_frame os a).0 ≡ ok
      → Reads a (get_normal_frame os a).1
  good_frame-Reads a t h =
      let (count, flag) = get_normal_frame-counts a h in
      (get_normal_frame-reads a t h, ground (arith, flag, t))

  skips-odd : (b : Board W) → skips_master os b ≡ true → b.frame_count % 2 ≡ 1
  skips-odd b t = ground arith

  even-reads : (b : Board W) → b.frame_count % 2 ≡ 0 → skips_master os b ≡ false
  even-reads b e = ground arith

  without_pen : (b : Board W) → skips_master os b ≡ true → b.stylus_active ≡ true
  without_pen b t = ground arith

  -- Of two good frames in succession, whatever they hold and whether or not a pen is there, at least one
  -- has read the master: the device answered a read of 5063 bytes behind the read of the slave, its bytes
  -- are in the front of the frame buffer, and the flag says so. The first one has unless a pen is there.
  pub master_is_read :
      (a : Afe (Board W))
      → let a1 = (get_normal_frame os a).1 in
        let a2 = (get_normal_frame os a1).1 in
        (get_normal_frame os a).0 ≡ ok
        → (get_normal_frame os a1).0 ≡ ok
        → (Reads a a1 ⊎ Reads a1 a2) × ((a.bus.stylus_active ≡ true) ⊎ Reads a a1)
  master_is_read a h h1 =
      let a1 = (get_normal_frame os a).1 in
      let (count, flag) = get_normal_frame-counts a h in
      elim (Bool-cases (skips_master os a.bus)) [
        | inl t ↦
            let odd : a1.bus.frame_count % 2 ≡ 0 =
              ap (λ n. n % 2) count ∙ parity a.bus.frame_count (skips-odd a.bus t) in
            (inr (good_frame-Reads a1 (even-reads a1.bus odd) h1), inl (without_pen a.bus t))
        | inr t ↦ let read = good_frame-Reads a t h in (inl read, inr read)
      ]
