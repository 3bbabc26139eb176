-- ===== src/Asa/Post.antt =====
-- CoorPostProcessor: EGoTouchService/Engine/StylusSolver/CoorPostProcessor.h and .cpp, the filters behind
-- the coordinate solver. `float` is a type with operations of which nothing is assumed.
use ego_touch_rev.Prelude.{
  ℕ, ◌+◌, ◌%◌, List, Bool, true, false, not, ◌&&◌, ◌||◌, leb, if◌then◌else◌, get_or, set, replicate,
}
use ego_touch_rev.Prelude.Int.{quot, ℤ, pos, ◌+ℤ◌, ◌-ℤ◌, ltb_ℤ, abs}
use ego_touch_rev.Prelude.Float.{FloatOps}
use ego_touch_rev.Asa.Coordinate.{AsaCoorResult}

-- What the filters use beside the sums, products and tests.
pub record PostFloat (F : Type 0) : Type 0 where
  pub ops : FloatOps F
  pub one_f : F
  pub div_f : F → F → F
  pub sqrt_f : F → F
  pub of_int : ℤ → F
  pub lround : F → ℤ

pub record PostConfig (F : Type 0) : Type 0 where
  pub iir_low_coef : F
  pub iir_high_coef : F
  pub speed_low_thr : F
  pub speed_high_thr : F
  pub jitter_lock_threshold : ℤ
  pub enable_3_point_avg : Bool

pub record PostState (F : Type 0) : Type 0 where
  pub initialized : Bool
  pub frame_count : ℕ
  pub history : List AsaCoorResult
  pub history_idx : ℕ
  pub prev0 : AsaCoorResult
  pub prev1 : AsaCoorResult
  pub iir_dim1 : F
  pub iir_dim2 : F
  pub current_coef : F
  pub locked_coor : AsaCoorResult
  pub jitter_locked : Bool
  pub speed : F

abbrev pub no_coor : AsaCoorResult
no_coor = record { dim1 = pos 0; dim2 = pos 0; valid = false }

module _ {F : Type 0} (fl : PostFloat F) (cfg : PostConfig F) where
  -- Reset
  abbrev pub reset_post : PostState F
  reset_post = record {
    initialized = false;
    frame_count = 0;
    history = replicate 24 no_coor;
    history_idx = 0;
    prev0 = no_coor;
    prev1 = no_coor;
    iir_dim1 = fl.ops.zero_f;
    iir_dim2 = fl.ops.zero_f;
    current_coef = fl.ops.zero_f;
    locked_coor = no_coor;
    jitter_locked = false;
    speed = fl.ops.zero_f;
  }

  unfoldable pub push_history : AsaCoorResult → PostState F → PostState F
  push_history cur s = record s {
    history = set s.history s.history_idx cur;
    history_idx = (s.history_idx + 1) % 24;
  }

  -- The reference is the entry that the next push overwrites.
  unfoldable pub calc_speed : AsaCoorResult → PostState F → F
  calc_speed cur s =
      let ref = get_or s.history (s.history_idx % 24) no_coor in
      let dx = fl.of_int (cur.dim1 -ℤ ref.dim1) in
      let dy = fl.of_int (cur.dim2 -ℤ ref.dim2) in
      if ref.valid
      then fl.sqrt_f (fl.ops.add_f (fl.ops.mul_f dx dx) (fl.ops.mul_f dy dy))
      else fl.ops.zero_f

  unfoldable pub calc_iir_coef : F → F
  calc_iir_coef speed =
      let t =
        fl.div_f (fl.ops.sub_f speed cfg.speed_low_thr)
          (fl.ops.sub_f cfg.speed_high_thr cfg.speed_low_thr) in
      if fl.ops.le_f speed cfg.speed_low_thr
      then cfg.iir_low_coef
      else if fl.ops.le_f cfg.speed_high_thr speed
      then cfg.iir_high_coef
      else fl.ops.add_f cfg.iir_low_coef
          (fl.ops.mul_f t (fl.ops.sub_f cfg.iir_high_coef cfg.iir_low_coef))

  abbrev pub blend : F → F → ℤ → F
  blend coef old new =
      fl.ops.add_f (fl.ops.mul_f old (fl.ops.sub_f fl.one_f coef))
        (fl.ops.mul_f (fl.of_int new) coef)

  unfoldable pub apply_iir : AsaCoorResult → F → PostState F → AsaCoorResult × PostState F
  apply_iir cur coef s =
      let d1 = blend coef s.iir_dim1 cur.dim1 in
      let d2 = blend coef s.iir_dim2 cur.dim2 in
      (
        record cur { dim1 = fl.lround d1; dim2 = fl.lround d2 },
        record s { iir_dim1 = d1; iir_dim2 = d2 },
      )

  unfoldable pub apply_3_point_avg : AsaCoorResult → PostState F → AsaCoorResult
  unfolding quot
  apply_3_point_avg cur s = if not s.prev0.valid || not s.prev1.valid then cur else record cur {
    dim1 = quot (s.prev1.dim1 +ℤ s.prev0.dim1 +ℤ cur.dim1) (pos 3);
    dim2 = quot (s.prev1.dim2 +ℤ s.prev0.dim2 +ℤ cur.dim2) (pos 3);
  }

  -- The test of ApplyJitterLock: the coordinate has left the threshold around the locked one.
  abbrev pub has_moved : AsaCoorResult → AsaCoorResult → Bool
  has_moved cur locked =
      ltb_ℤ cfg.jitter_lock_threshold (abs (cur.dim1 -ℤ locked.dim1))
      || ltb_ℤ cfg.jitter_lock_threshold (abs (cur.dim2 -ℤ locked.dim2))

  unfoldable pub apply_jitter_lock : AsaCoorResult → PostState F → AsaCoorResult × PostState F
  apply_jitter_lock cur s =
      if not s.jitter_locked
      then (cur, record s { locked_coor = cur; jitter_locked = true })
      else if has_moved cur s.locked_coor
      then (cur, record s { locked_coor = cur })
      else (s.locked_coor, s)

  -- Stages 5 to 7.
  unfoldable pub smooth : AsaCoorResult → PostState F → AsaCoorResult × PostState F
  unfolding calc_speed calc_iir_coef apply_iir
  smooth cur s =
      let speed = calc_speed cur s in
      let s1 = record s { speed = speed; current_coef = calc_iir_coef speed } in
      if s.initialized then apply_iir cur s1.current_coef s1 else (
        cur,
        record s1 {
          iir_dim1 = fl.of_int cur.dim1;
          iir_dim2 = fl.of_int cur.dim2;
          initialized = true;
        },
      )

  -- The stages of Process for a valid coordinate.
  unfoldable pub process_valid : AsaCoorResult → PostState F → AsaCoorResult × PostState F
  unfolding push_history apply_3_point_avg smooth apply_jitter_lock
  process_valid raw s =
      let s1 = push_history raw s in
      let averaged =
        if cfg.enable_3_point_avg && leb 2 s.frame_count then apply_3_point_avg raw s1 else raw in
      let (smoothed, s2) = smooth averaged s1 in
      let (out, s3) = apply_jitter_lock smoothed s2 in
      (out, record s3 { prev1 = s3.prev0; prev0 = out; frame_count = s3.frame_count + 1 })

  unfoldable pub process : AsaCoorResult → PostState F → AsaCoorResult × PostState F
  unfolding process_valid
  process raw s = if not raw.valid then (raw, reset_post) else process_valid raw s
