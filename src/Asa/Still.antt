-- ===== src/Asa/Still.antt =====
-- A pen at rest: the jitter lock, and what a lost pen leaves behind.
use ego_touch_rev.Prelude.{
  ◌≡◌, ◌⊎◌, refl, sym, ap, ◌∙◌, arith, inl, inr, true, not, ◌&&◌, leb, if◌then◌else◌, Bool-cases,
}
use ego_touch_rev.Asa.Coordinate.{AsaCoorResult}
use ego_touch_rev.Asa.Post.{
  PostFloat, PostConfig, PostState, has_moved, apply_jitter_lock, apply_3_point_avg, apply_iir,
  push_history, smooth, process_valid, process, reset_post,
}

module _ {F : Type 0} (fl : PostFloat F) (cfg : PostConfig F) where
  -- The lock holds the coordinate that is handed on.
  record Locks (s : PostState F) (r : AsaCoorResult × PostState F) : Type 0 where
    on : r.1.jitter_locked ≡ true
    held : r.1.locked_coor ≡ r.0
    rests :
        s.jitter_locked ≡ true → (r.0 ≡ s.locked_coor) ⊎ (has_moved fl cfg r.0 s.locked_coor ≡ true)

  lock-Locks : (cur : AsaCoorResult) (s : PostState F) → Locks s (apply_jitter_lock fl cfg cur s)
  unfolding apply_jitter_lock
  lock-Locks cur s = elim (Bool-cases s.jitter_locked) [
    | inr off ↦
        rw (off, apply_jitter_lock)
          (record { on = refl; held = refl; rests = λ h. ground (arith, h) })
    | inl on ↦ elim (Bool-cases (has_moved fl cfg cur s.locked_coor)) [
      | inl m ↦
          rw (on, m, apply_jitter_lock) (record { on = refl; held = refl; rests = λ h. inr m })
      | inr m ↦
          rw (on, m, apply_jitter_lock) (record { on = refl; held = refl; rests = λ h. inl refl })
    ]
  ]

  smooth-lock :
      (cur : AsaCoorResult) (s : PostState F)
      → ((smooth fl cfg cur s).1.jitter_locked ≡ s.jitter_locked)
        × ((smooth fl cfg cur s).1.locked_coor ≡ s.locked_coor)
  unfolding smooth apply_iir
  smooth-lock cur s = ground arith

  push_history-lock :
      (raw : AsaCoorResult) (s : PostState F)
      → ((push_history fl cfg raw s).jitter_locked ≡ s.jitter_locked)
        × ((push_history fl cfg raw s).locked_coor ≡ s.locked_coor)
  unfolding push_history
  push_history-lock raw s = (refl, refl)

  of-lock :
      (x a b : AsaCoorResult)
      → a ≡ b
      → (x ≡ a) ⊎ (has_moved fl cfg x a ≡ true)
      → (x ≡ b) ⊎ (has_moved fl cfg x b ≡ true)
  of-lock x a b e (inl h) = inl (h ∙ e)
  of-lock x a b e (inr h) = inr (ap (λ y. has_moved fl cfg x y) (sym e) ∙ h)

  process_valid-Locks :
      (raw : AsaCoorResult) (s : PostState F) → Locks s (process_valid fl cfg raw s)
  unfolding process_valid
  process_valid-Locks raw s =
      let s1 = push_history fl cfg raw s in
      let averaged =
        if cfg.enable_3_point_avg && leb 2 s.frame_count
        then apply_3_point_avg fl cfg raw s1
        else raw in
      let (on, locked) = smooth-lock averaged s1 in
      let (same_on, same_locked) = push_history-lock raw s in
      let l = lock-Locks (smooth fl cfg averaged s1).0 (smooth fl cfg averaged s1).1 in
      record {
        on = l.on;
        held = l.held;
        rests = λ h.
            of-lock
              (apply_jitter_lock fl cfg (smooth fl cfg averaged s1).0
                (smooth fl cfg averaged s1).1).0
              (smooth fl cfg averaged s1).1.locked_coor s.locked_coor (locked ∙ same_locked)
              (l.rests (on ∙ (same_on ∙ h)));
      }

  process-valid :
      (raw : AsaCoorResult) (s : PostState F)
      → raw.valid ≡ true
      → process fl cfg raw s ≡ process_valid fl cfg raw s
  unfolding process
  process-valid raw s v =
      ap (λ b. if not b then (raw, reset_post fl cfg) else process_valid fl cfg raw s) v

  process-Locks :
      (raw : AsaCoorResult) (s : PostState F) → raw.valid ≡ true → Locks s (process fl cfg raw s)
  process-Locks raw s v = rw (process-valid raw s v) (process_valid-Locks raw s)

  -- Two coordinates in succession that are handed on, after any frames before them, are the same or
  -- further apart than the threshold of the jitter lock, whatever the filters before the lock compute.
  pub output_rests_or_jumps :
      (raw1 raw2 : AsaCoorResult) (s : PostState F)
      → raw1.valid ≡ true
      → raw2.valid ≡ true
      → let (out1, s1) = process fl cfg raw1 s in
        let (out2, s2) = process fl cfg raw2 s1 in
        (out2 ≡ out1) ⊎ (has_moved fl cfg out2 out1 ≡ true)
  output_rests_or_jumps raw1 raw2 s v1 v2 =
      let l1 = process-Locks raw1 s v1 in
      let l2 = process-Locks raw2 (process fl cfg raw1 s).1 v2 in
      of-lock (process fl cfg raw2 (process fl cfg raw1 s).1).0
        (process fl cfg raw1 s).1.locked_coor (process fl cfg raw1 s).0 l1.held (l2.rests l1.on)
