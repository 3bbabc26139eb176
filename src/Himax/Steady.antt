-- ===== src/Himax/Steady.antt =====
-- What the operations of HimaxProtocol.cpp and HimaxChip.cpp leave alone: an operation is steady when
-- it changes nothing of the board but the devices' error codes and what stands behind the handles.
pub mod Chip
pub mod Setup
use ego_touch_rev.Prelude.{
  ℕ, zero, suc, ◌+◌, ◌≡◌, refl, sym, ◌∙◌, inl, inr, ◌⊎◌, [], ◌∷◌, replicate, arith, List, Bool,
  true, false, ◌||◌, ltb, leb, ◌==◌, Option, none, some, if◌then◌else◌, Bool-cases,
}
use ego_touch_rev.Afe.{ChipError, communication_error, internal_error}
use ego_touch_rev.Himax.{
  DeviceType, HalDevice, Board, Result, done, failed, is_done, Act, pure, fail, continue, ◌>>=◌,
  ◌>>◌, attempt, device, set_error,
}
use ego_touch_rev.Himax.DeviceType.{master, slave, interrupt}
use ego_touch_rev.Himax.Hal.{
  Os, Io, io_control, error_operation_aborted, Completion, completed, refused, Submitted, finished,
  pending, finish, perform_sync_io, ioctl_rounds, after_wait, await, with_event, ioctl, read_bus,
  write_bus, control, read_acpi, get_frame_bytes,
}
use ego_touch_rev.Himax.Protocol.{
  burst_enable, register_read, register_write, write_and_verify, safe_mode_set_raw, when_valid,
}
use ego_touch_rev.Himax.Sense.{retry}

-- The board without its error codes and what stands behind the handles.
abbrev pub still : {W : Type 0} → Board W → Board (Unit {0})
still b = record {
  master_device = record (b.master_device) { last_error = 0 };
  slave_device = record (b.slave_device) { last_error = 0 };
  interrupt_device = record (b.interrupt_device) { last_error = 0 };
  current_slot = b.current_slot;
  frame_count = b.frame_count;
  zero_frame_count = b.zero_frame_count;
  stylus_active = b.stylus_active;
  last_master_was_read = b.last_master_was_read;
  world = tt;
}

pub Result-cases :
    {A : Type 0} (r : Result A) → ((a : A) × (r ≡ done a)) ⊎ ((e : ChipError) × (r ≡ failed e))
Result-cases (done a) = inl (a, refl)
Result-cases (failed e) = inr (e, refl)

pub record IsSteady {W A : Type 0} (m : Act W A) : Type 0 where
  pub keeps : (b : Board W) → still (m b).1 ≡ still b

module _ {W : Type 0} where
  pub pure-IsSteady : {A : Type 0} (a : A) → IsSteady {W = W} (pure a)
  pure-IsSteady a = record { keeps = λ b. refl }

  pub fail-IsSteady : {A : Type 0} (e : ChipError) → IsSteady {W = W} {A = A} (fail e)
  fail-IsSteady e = record { keeps = λ b. refl }

  continue-still :
      {A C : Type 0} (r : Result A) (k : A → Act W C)
      → ((a : A) → IsSteady (k a))
      → (b : Board W) → still (continue r k b).1 ≡ still b
  continue-still (done a) k steady b = (steady a).keeps b
  continue-still (failed e) k steady b = refl

  pub bind-IsSteady :
      {A C : Type 0} {m : Act W A} {k : A → Act W C}
      → IsSteady m
      → ((a : A) → IsSteady (k a))
      → IsSteady (m >>= k)
  bind-IsSteady {m = m} {k = k} sm sk = record {
    keeps = λ b. continue-still (m b).0 k sk (m b).1 ∙ sm.keeps b;
  }

  pub attempt-IsSteady : {A : Type 0} {m : Act W A} → IsSteady m → IsSteady (attempt m)
  attempt-IsSteady sm = record { keeps = λ b. sm.keeps b }

  pub if-IsSteady :
      {A : Type 0} (t : Bool) {m n : Act W A}
      → IsSteady m
      → IsSteady n
      → IsSteady (if t then m else n)
  if-IsSteady true sm sn = sm
  if-IsSteady false sm sn = sn

  set_error-still : (d : DeviceType) (e : ℕ) (b : Board W) → still (set_error d e b) ≡ still b
  set_error-still master e b = refl
  set_error-still slave e b = refl
  set_error-still interrupt e b = refl

  finish-still :
      (d : DeviceType) (e : ChipError) (c : Completion) (b : Board W)
      → still (finish d e c b).1 ≡ still b
  finish-still d e (completed bytes n) b = set_error-still d 0 b
  finish-still d e (refused code) b = set_error-still d code b

module _ {W : Type 0} (os : Os W) where
  after_wait-still :
      (d : DeviceType) (e : ChipError) (code : Option ℕ) (b : Board W)
      → still (after_wait os d e code b).1 ≡ still b
  unfolding after_wait
  after_wait-still d e (some code) b = set_error-still d code b
  after_wait-still d e none b = finish-still d e (os.overlapped_result b.world).0 _

  await-still :
      (d : DeviceType) (e : ChipError) (s : Submitted) (b : Board W)
      → still (await os d e s b).1 ≡ still b
  unfolding await
  await-still d e (finished c) b = finish-still d e c b
  await-still d e pending b = after_wait-still d e (os.wait b.world).0 _

  with_event-still :
      (d : DeviceType) (io : Io) (e : ChipError) (code : Option ℕ) (b : Board W)
      → still (with_event os d io e code b).1 ≡ still b
  unfolding with_event
  with_event-still d io e (some code) b = set_error-still d code b
  with_event-still d io e none b = await-still d e (os.submit d io b.world).0 _

  pub perform_sync_io-IsSteady :
      (d : DeviceType) (io : Io) (e : ChipError) → IsSteady (perform_sync_io os d io e)
  unfolding perform_sync_io
  perform_sync_io-IsSteady d io e = record {
    keeps = λ b. elim (Bool-cases (device d b).handle_valid) [
      | inl v ↦ rw v (with_event-still d io e (os.create_event b.world).0 _)
      | inr v ↦ rw v (set_error-still d 6 b)
    ];
  }

  ioctl_rounds-still :
      (n : ℕ) (d : DeviceType) (io : Io) (last : Result (List ℕ × ℕ)) (b : Board W)
      → still (ioctl_rounds os n d io last b).1 ≡ still b
  unfolding ioctl_rounds
  ioctl_rounds-still zero d io last b = refl
  ioctl_rounds-still (suc n) d io last b =
      let (r, b') = perform_sync_io os d io communication_error b in
      let now = (perform_sync_io-IsSteady d io communication_error).keeps b in
      elim (Bool-cases (is_done r || (device d b').last_error == error_operation_aborted)) [
        | inl stop ↦ rw (stop, ioctl_rounds) now
        | inr again ↦ rw (again, ioctl_rounds) (ioctl_rounds-still n d io r b' ∙ now)
      ]

  pub ioctl-IsSteady :
      (d : DeviceType) (code : ℕ) (input : List ℕ) (out_len : ℕ)
      → IsSteady (ioctl os d code input out_len)
  unfolding ioctl
  ioctl-IsSteady d code input out_len = record {
    keeps = ioctl_rounds-still 10 d (io_control code input out_len) (failed internal_error);
  }

  pub read_bus-IsSteady : (d : DeviceType) (cmd len : ℕ) → IsSteady (read_bus os d cmd len)
  unfolding read_bus
  read_bus-IsSteady d cmd len = record {
    keeps = λ b.
        let buffer = (device d b).read_op ∷ cmd ∷ 0 ∷ replicate len 0 in
        let now = (ioctl-IsSteady d 0x4001c24 buffer (3 + len)).keeps b in
        elim (Result-cases (ioctl os d 0x4001c24 buffer (3 + len) b).0) [
          | inl ((bytes, moved), e) ↦ elim (Bool-cases (ltb moved (3 + len))) [
            | inl t ↦ rw (e, t, read_bus) now
            | inr t ↦ rw (e, t, read_bus) now
          ]
          | inr (c, e) ↦ rw (e, read_bus) now
        ];
  }
