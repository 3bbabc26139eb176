-- ===== src/Driver/Replies.antt =====
-- What the replies of the driver hold.
use ego_touch_rev.Prelude.{
  ℕ, zero, suc, ◌+◌, ◌-◌, ◌%◌, ◌^◌, ◌≤◌, ◌<◌, ◌≡◌, refl, ap, ◌∙◌, arith, List, ◌++◌, Option, some,
  length, get_elem?, replicate, length-append, length-replicate,
}
use native.Mathlib.Nat.{add-zero, add-suc}
use ego_touch_rev.Driver.{
  DeviceContext, EgoRegisterRw, register_rw, read_register, Request, Framework,
  evt_io_device_control, pattern_from,
}

pub length-pattern_from : (a i n : ℕ) → length (pattern_from a i n) ≡ n
unfolding pattern_from
length-pattern_from a i zero = refl
length-pattern_from a i (suc n) = ap suc (length-pattern_from a (i + 1) n)

byte_of_sum : (x : ℕ) → x % 2 ^ 32 % 256 ≡ x % 256
byte_of_sum x = omega arith

pub get_elem?-pattern_from :
    (a i n : ℕ) (rest : List ℕ) (j : ℕ)
    → j < n
    → get_elem? (pattern_from a i n ++ rest) j ≡ some ((a + (i + j)) % 256)
unfolding pattern_from
get_elem?-pattern_from a i zero rest j h = absurd (omega arith)
get_elem?-pattern_from a i (suc n) rest zero h = ap some (omega (arith, byte_of_sum (a + i)))
get_elem?-pattern_from a i (suc n) rest (suc j) h =
    get_elem?-pattern_from a (i + 1) n rest j (omega arith)
    ∙ ap (λ k. some ((a + k) % 256)) (omega arith)

get_elem?-zeros : (k j : ℕ) → j < k → get_elem? (replicate {A = ℕ} k 0) j ≡ some 0
get_elem?-zeros zero j h = absurd (omega arith)
get_elem?-zeros (suc k) zero h = refl
get_elem?-zeros (suc k) (suc j) h = get_elem?-zeros k j (omega arith)

-- Past the pattern the rest is read.
get_elem?-past :
    (a i n : ℕ) (rest : List ℕ) (j : ℕ)
    → get_elem? (pattern_from a i n ++ rest) (j + n) ≡ get_elem? rest j
unfolding pattern_from
get_elem?-past a i zero rest j = ap (get_elem? rest) (add-zero j)
get_elem?-past a i (suc n) rest j = rw (add-suc j n) (get_elem?-past a (i + 1) n rest j)

-- What the handler wrote, and the check that it passed.
read_reply :
    (wdf : Framework) (req : Request) (context : DeviceContext) (reply : EgoRegisterRw)
    → req.code ≡ read_register
    → (evt_io_device_control wdf req context).1.written ≡ some (register_rw reply)
    → (reply.bytes
        ≡ pattern_from req.register_input.address 0 req.register_input.size
          ++ replicate (256 - req.register_input.size) 0)
      × (reply.size ≡ req.register_input.size)
      × (reply.address ≡ req.register_input.address)
      × (req.register_input.size ≤ 256)
unfolding evt_io_device_control
read_reply wdf req context reply is_read h = ground arith

-- A register read that writes a reply returns the request's address and length and 256 bytes: the
-- placeholder pattern `(address + j) mod 256` in the first `length` of them, and 0 in the others.
pub register_read_bytes :
    (wdf : Framework) (req : Request) (context : DeviceContext) (reply : EgoRegisterRw)
    → req.code ≡ read_register
    → (evt_io_device_control wdf req context).1.written ≡ some (register_rw reply)
    → (reply.size ≡ req.register_input.size)
      × (reply.address ≡ req.register_input.address)
      × (length reply.bytes ≡ 256)
      × ((j : ℕ)
          → j < reply.size
          → get_elem? reply.bytes j ≡ some ((req.register_input.address + j) % 256))
      × ((j : ℕ) → reply.size ≤ j → j < 256 → get_elem? reply.bytes j ≡ some 0)
register_read_bytes wdf req context reply is_read h =
    let (b, s, a, fits) = read_reply wdf req context reply is_read h in
    let size = req.register_input.size in
    let address = req.register_input.address in
    let zeros : List ℕ = replicate (256 - size) 0 in
    (
      s,
      a,
      omega (
        arith,
        ap length b,
        length-append {0} (pattern_from address 0 size) zeros,
        length-pattern_from address 0 size,
        length-replicate {0} {A = ℕ} (256 - size) 0,
      ),
      (λ j less.
          rw b (get_elem?-pattern_from address 0 size zeros j (omega arith) ∙ shown address j)),
      (λ j more less.
          let e : j ≡ (j - size) + size = omega arith in
          ap (get_elem? reply.bytes) e
          ∙ rw b (
              get_elem?-past address 0 size zeros (j - size)
              ∙ get_elem?-zeros (256 - size) (j - size) (omega arith))),
    )
  where
    shown : (a j : ℕ) → ◌≡◌ {A = Option ℕ} (some ((a + (0 + j)) % 256)) (some ((a + j) % 256))
    shown a j = ap some (omega arith)
