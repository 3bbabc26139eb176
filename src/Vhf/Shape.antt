-- ===== src/Vhf/Shape.antt =====
-- What the touch reports hold, byte by byte.
use ego_touch_rev.Prelude.{
  ℕ, zero, suc, ◌+◌, ◌-◌, ◌*◌, ◌/◌, ◌%◌, ◌<◌, ◌≤◌, ◌≡◌, refl, sym, ap, arith, List, [], ◌∷◌, ◌++◌,
  Bool, true, false, not, ltb, length, replicate, length-append, length-replicate, length-take,
  take, drop, set, min, All,
}
use ego_touch_rev.Prelude.Int.{ℤ}
use ego_touch_rev.Engine.{TouchContact}
use ego_touch_rev.Vhf.{
  Scale, clamp, encode_contact_state, reportable, to_vhf, write_contacts, build_touch_reports,
  empty_packet, clamp_unit,
}

pub clamp-bound : (hi : ℕ) (z : ℤ) → clamp hi z ≤ hi
unfolding clamp
clamp-bound hi z = ground arith

zeros-All :
    (n : ℕ) (rest : List ℕ) → All (λ b. b < 256) rest → All (λ b. b < 256) (replicate n 0 ++ rest)
zeros-All zero rest h = h
zeros-All (suc n) rest h = (omega arith, zeros-All n rest h)

min_zero : (n : ℕ) → min 0 n ≡ 0
min_zero n = omega arith

min_nil : (n : ℕ) → min (suc n) 0 ≡ 0
min_nil n = omega arith

min-suc : (m n : ℕ) → min (suc m) (suc n) ≡ suc (min m n)
min-suc m n = omega arith

module _ {F : Type 0} (fs : Scale F) where
  -- The six bytes of a contact.
  unfoldable pub contact_bytes : Bool → TouchContact F → List ℕ
  contact_bytes flip c =
      let x = to_vhf fs c.y 40 16000 flip in
      let y = to_vhf fs c.x 60 25600 (not flip) in
      encode_contact_state c
      ∷ clamp 255 c.id
      ∷ x % 256
      ∷ x / 256 % 256
      ∷ y % 256
      ∷ y / 256 % 256
      ∷ []

  unfoldable pub all_bytes : Bool → List (TouchContact F) → List ℕ
  unfolding contact_bytes
  all_bytes flip [] = []
  all_bytes flip (c ∷ cs) = contact_bytes flip c ++ all_bytes flip cs

  -- A report for at most five contacts: the report number, the contacts, zeros up to 31 bytes, and the
  -- last byte.
  unfoldable pub report : Bool → List (TouchContact F) → ℕ → List ℕ
  unfolding all_bytes
  report flip cs last =
      0x01 ∷ (all_bytes flip cs ++ (replicate (30 - 6 * length cs) 0 ++ (last ∷ [])))

  written :
      (flip : Bool) (cs : List (TouchContact F))
      → length cs ≤ 10
      → write_contacts fs flip 0 cs
          (set empty_packet.bytes 31 (length cs % 256), empty_packet.bytes)
        ≡ (report flip (take 5 cs) (length cs), report flip (take 5 (drop 5 cs)) 0)
  unfolding write_contacts report all_bytes contact_bytes
  written flip [] h = refl
  written flip (c0 ∷ []) h = refl
  written flip (c0 ∷ c1 ∷ []) h = refl
  written flip (c0 ∷ c1 ∷ c2 ∷ []) h = refl
  written flip (c0 ∷ c1 ∷ c2 ∷ c3 ∷ []) h = refl
  written flip (c0 ∷ c1 ∷ c2 ∷ c3 ∷ c4 ∷ []) h = refl
  written flip (c0 ∷ c1 ∷ c2 ∷ c3 ∷ c4 ∷ c5 ∷ []) h = refl
  written flip (c0 ∷ c1 ∷ c2 ∷ c3 ∷ c4 ∷ c5 ∷ c6 ∷ []) h = refl
  written flip (c0 ∷ c1 ∷ c2 ∷ c3 ∷ c4 ∷ c5 ∷ c6 ∷ c7 ∷ []) h = refl
  written flip (c0 ∷ c1 ∷ c2 ∷ c3 ∷ c4 ∷ c5 ∷ c6 ∷ c7 ∷ c8 ∷ []) h = refl
  written flip (c0 ∷ c1 ∷ c2 ∷ c3 ∷ c4 ∷ c5 ∷ c6 ∷ c7 ∷ c8 ∷ c9 ∷ []) h = refl
  written flip (c0 ∷ c1 ∷ c2 ∷ c3 ∷ c4 ∷ c5 ∷ c6 ∷ c7 ∷ c8 ∷ c9 ∷ c10 ∷ cs) h = absurd (omega arith)

  take-count : (n : ℕ) (cs : List (TouchContact F)) → take (min n (length cs)) cs ≡ take n cs
  take-count zero cs = rw (min_zero (length cs)) refl
  take-count (suc n) [] = rw (min_nil n) refl
  take-count (suc n) (c ∷ cs) = rw (min-suc n (length cs)) (ap (λ xs. c ∷ xs) (take-count n cs))

  pub reports_are_written :
      (flip : Bool) (contacts : List (TouchContact F))
      → let shown = take 10 (reportable contacts) in
        let (first, second) = build_touch_reports fs flip contacts in
        (first.bytes ≡ report flip (take 5 shown) (length shown))
        × (second.bytes ≡ report flip (take 5 (drop 5 shown)) 0)
        × (first.valid ≡ ltb 0 (length shown))
        × (second.valid ≡ ltb 5 (length shown))
  unfolding build_touch_reports
  reports_are_written flip contacts =
      let all = reportable contacts in
      let shown = take 10 all in
      let size : length shown ≡ min 10 (length all) = length-take 10 all in
      let both = written flip shown (omega (arith, size)) in
      rw (take-count 10 all, sym size)
        (ap (λ packets. packets.0) both, ap (λ packets. packets.1) both, refl, refl)

  state-bound : (c : TouchContact F) → encode_contact_state c < 256
  unfolding encode_contact_state
  state-bound c = ground arith

  contact_bytes-All :
      (flip : Bool) (c : TouchContact F) (rest : List ℕ)
      → All (λ b. b < 256) rest
      → All (λ b. b < 256) (contact_bytes flip c ++ rest)
  unfolding contact_bytes
  contact_bytes-All flip c rest h = (
    state-bound c,
    (
      omega (arith, clamp-bound 255 c.id),
      (omega arith, (omega arith, (omega arith, (omega arith, h)))),
    ),
  )

  all_bytes-All :
      (flip : Bool) (cs : List (TouchContact F)) (rest : List ℕ)
      → All (λ b. b < 256) rest
      → All (λ b. b < 256) (all_bytes flip cs ++ rest)
  unfolding all_bytes contact_bytes
  all_bytes-All flip [] rest h = h
  all_bytes-All flip (c ∷ cs) rest h =
      contact_bytes-All flip c (all_bytes flip cs ++ rest) (all_bytes-All flip cs rest h)

  all_bytes-length :
      (flip : Bool) (cs : List (TouchContact F)) → length (all_bytes flip cs) ≡ 6 * length cs
  unfolding all_bytes contact_bytes
  all_bytes-length flip [] = refl
  all_bytes-length flip (c ∷ cs) = omega (arith, all_bytes-length flip cs)

  report-IsReport :
      (flip : Bool) (cs : List (TouchContact F)) (last : ℕ)
      → length cs ≤ 5
      → last < 256
      → (length (report flip cs last) ≡ 32) × All (λ b. b < 256) (report flip cs last)
  unfolding report
  report-IsReport flip cs last h k =
      let zeros : List ℕ = replicate (30 - 6 * length cs) 0 in
      (
        omega (
          arith,
          length-append (all_bytes flip cs) (zeros ++ (last ∷ [])),
          length-append zeros (last ∷ []),
          length-replicate {A = ℕ} (30 - 6 * length cs) 0,
          all_bytes-length flip cs,
        ),
        (
          omega arith,
          all_bytes-All flip cs (zeros ++ (last ∷ []))
              (zeros-All (30 - 6 * length cs) (last ∷ []) (k, tt)),
        ),
      )

  -- Both reports have 32 bytes, each of them below 256, whatever the contacts hold.
  pub reports_are_bytes :
      (flip : Bool) (contacts : List (TouchContact F))
      → let (first, second) = build_touch_reports fs flip contacts in
        (length first.bytes ≡ 32)
        × All (λ b. b < 256) first.bytes
        × (length second.bytes ≡ 32)
        × All (λ b. b < 256) second.bytes
  reports_are_bytes flip contacts =
      let shown = take 10 (reportable contacts) in
      let (e, e', valid, valid') = reports_are_written flip contacts in
      let size = length-take 10 (reportable contacts) in
      let (l, b) =
        report-IsReport flip (take 5 shown) (length shown) (omega (arith, length-take 5 shown))
          (omega (arith, size)) in
      let (l', b') =
        report-IsReport flip (take 5 (drop 5 shown)) 0 (omega (arith, length-take 5 (drop 5 shown)))
          (omega arith) in
      rw (e, e') (l, b, l', b')

  -- A scaled coordinate stays within the logical maximum and within 16 bits, whatever the arithmetic on
  -- `float` yields, and the two directions of an axis add up to the maximum.
  pub coordinates_are_bounded :
      (v : F) (grid_max logical_max : ℕ)
      → logical_max < 65536
      → (to_vhf fs v grid_max logical_max false ≤ logical_max)
        × (to_vhf fs v grid_max logical_max true + to_vhf fs v grid_max logical_max false
            ≡ logical_max)
  unfolding to_vhf
  coordinates_are_bounded v grid_max logical_max h =
      let vhf = clamp-bound logical_max (
        fs.lround
          (fs.mul_f (clamp_unit fs (fs.div_f v (fs.number grid_max))) (fs.number logical_max))) in
      (omega arith, omega arith)
