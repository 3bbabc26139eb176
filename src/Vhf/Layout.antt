-- ===== src/Vhf/Layout.antt =====
-- The layout of the touch reports, written down without the code that builds them.
use ego_touch_rev.Prelude.{
  ℕ, zero, suc, ◌+◌, ◌-◌, ◌*◌, ◌/◌, ◌%◌, ◌<◌, ◌≡◌, refl, ap, ap₂, ◌∙◌, arith, List, [], ◌∷◌, ◌++◌,
  Bool, true, false, ◌&&◌, ltb, ◌==◌, length, replicate, take, drop, min, if◌then◌else◌,
}
use ego_touch_rev.Prelude.Int.{ℤ, pos, negsuc, pos_part}
use ego_touch_rev.Engine.{TouchContact}
use ego_touch_rev.Vhf.{
  Scale, clamp, clamp_unit, encode_contact_state, reportable, has_id, to_vhf, build_touch_reports,
}
use ego_touch_rev.Vhf.Shape.{contact_bytes, all_bytes, report, reports_are_written}

-- A contact is shown when its number is positive and it is to be reported.
unfoldable pub is_shown : {F : Type 0} → ℤ → TouchContact F → Bool
is_shown (pos (suc n)) c = c.is_reported
is_shown _ c = false

unfoldable pub shown : {F : Type 0} → List (TouchContact F) → List (TouchContact F)
unfolding is_shown
shown [] = []
shown (c ∷ cs) = let rest = shown cs in if is_shown c.id c then c ∷ rest else rest

-- Bit 0 says that the tip is on the panel, unless the contact goes up (event 0x20). Bit 1, the confidence,
-- is always set.
unfoldable pub tip_switch : ℤ → ℕ
tip_switch (pos n) = if n == 32 then 0 else 1
tip_switch (negsuc n) = 1

abbrev pub status_byte : ℕ → ℕ
status_byte tip = 2 + tip

-- The contact's number in a byte.
unfoldable pub id_byte : ℤ → ℕ
id_byte (pos n) = min n 255
id_byte (negsuc n) = 0

module _ {F : Type 0} (fs : Scale F) where
  -- A grid coordinate as a part of the grid, from 0 to 1, times the steps of the axis.
  abbrev pub steps : F → ℕ → ℕ → ℕ
  steps v grid_size axis =
      let part = clamp_unit fs (fs.div_f v (fs.number grid_size)) in
      min (pos_part (fs.lround (fs.mul_f part (fs.number axis)))) axis

  -- Rows run along an axis of 16000 steps, columns along one of 25600. One of the axes is counted from
  -- its far end: the one of the columns, or with `flip` the one of the rows.
  abbrev pub position : Bool → TouchContact F → ℕ × ℕ
  position false c = (steps c.y 40 16000, 25600 - steps c.x 60 25600)
  position true c = (16000 - steps c.y 40 16000, steps c.x 60 25600)

  -- The six bytes of a contact; words have the low byte first.
  unfoldable pub slot_bytes : Bool → TouchContact F → List ℕ
  unfolding tip_switch id_byte
  slot_bytes flip c =
      let (x, y) = position flip c in
      status_byte (tip_switch c.report_event)
      ∷ id_byte c.id
      ∷ x % 256
      ∷ x / 256
      ∷ y % 256
      ∷ y / 256
      ∷ []

  unfoldable pub slots : Bool → List (TouchContact F) → List ℕ
  unfolding slot_bytes
  slots flip [] = []
  slots flip (c ∷ cs) = slot_bytes flip c ++ slots flip cs

  -- The report number 1, the contacts, zeros up to 31 bytes, and the last byte.
  unfoldable pub layout : Bool → List (TouchContact F) → ℕ → List ℕ
  unfolding slots
  layout flip cs last = 1 ∷ (slots flip cs ++ (replicate (30 - 6 * length cs) 0 ++ (last ∷ [])))

  is_shown-test : (c : TouchContact F) (z : ℤ) → has_id z && c.is_reported ≡ is_shown z c
  unfolding is_shown
  is_shown-test c (pos zero) = refl
  is_shown-test c (pos (suc n)) = let e : suc n == 0 ≡ false = ground arith in rw e refl
  is_shown-test c (negsuc n) = refl

  reportable-shown : (cs : List (TouchContact F)) → reportable cs ≡ shown cs
  unfolding reportable shown
  reportable-shown [] = refl
  reportable-shown (c ∷ cs) = rw (is_shown-test c c.id, reportable-shown cs) refl

  clamp-min : (hi : ℕ) (z : ℤ) → clamp hi z ≡ min (pos_part z) hi
  unfolding clamp
  clamp-min hi (pos n) = ground arith
  clamp-min hi (negsuc n) = omega arith

  to_vhf-steps :
      (v : F) (grid_size axis : ℕ)
      → axis < 65536
      → (to_vhf fs v grid_size axis false ≡ steps v grid_size axis)
        × (to_vhf fs v grid_size axis true ≡ axis - steps v grid_size axis)
  unfolding to_vhf
  to_vhf-steps v grid_size axis h =
      let z =
        fs.lround (fs.mul_f (clamp_unit fs (fs.div_f v (fs.number grid_size))) (fs.number axis)) in
      (omega (arith, clamp-min axis z), omega (arith, clamp-min axis z))

  state-status :
      (c : TouchContact F) → encode_contact_state c ≡ status_byte (tip_switch c.report_event)
  unfolding encode_contact_state tip_switch
  state-status c = ground arith

  id-clamp : (z : ℤ) → clamp 255 z ≡ id_byte z
  unfolding clamp id_byte
  id-clamp (pos n) = ground arith
  id-clamp (negsuc n) = refl

  high_byte : (x : ℕ) → x < 65536 → x / 256 % 256 ≡ x / 256
  high_byte x h = omega arith

  contact-slot : (flip : Bool) (c : TouchContact F) → contact_bytes fs flip c ≡ slot_bytes flip c
  unfolding contact_bytes slot_bytes
  contact-slot false c =
      rw
        (
          state-status c,
          id-clamp c.id,
          (to_vhf-steps c.y 40 16000 (omega arith)).0,
          (to_vhf-steps c.x 60 25600 (omega arith)).1,
          high_byte (steps c.y 40 16000) (omega arith),
          high_byte (25600 - steps c.x 60 25600) (omega arith),
        )
        refl
  contact-slot true c =
      rw
        (
          state-status c,
          id-clamp c.id,
          (to_vhf-steps c.y 40 16000 (omega arith)).1,
          (to_vhf-steps c.x 60 25600 (omega arith)).0,
          high_byte (16000 - steps c.y 40 16000) (omega arith),
          high_byte (steps c.x 60 25600) (omega arith),
        )
        refl

  all-slots : (flip : Bool) (cs : List (TouchContact F)) → all_bytes fs flip cs ≡ slots flip cs
  unfolding all_bytes slots
  all-slots flip [] = refl
  all-slots flip (c ∷ cs) = ap₂ ◌++◌ (contact-slot flip c) (all-slots flip cs)

  report-layout :
      (flip : Bool) (cs : List (TouchContact F)) (last : ℕ)
      → report fs flip cs last ≡ layout flip cs last
  unfolding report layout
  report-layout flip cs last =
      ap (λ bytes. 1 ∷ (bytes ++ (replicate (30 - 6 * length cs) 0 ++ (last ∷ []))))
        (all-slots flip cs)

  -- The reports that are built hold the first ten contacts that have a number above 0 and are to be
  -- reported, in their order, five in each report at the places of the layout with the other places 0,
  -- and the first report's last byte counts them; a report is valid when it holds a contact. A contact
  -- has its tip switch, its number, and its row and column in steps of the two axes, of which the one of
  -- the columns is counted from its far end, or with the transposition the one of the rows.
  pub reports_follow_layout :
      (flip : Bool) (contacts : List (TouchContact F))
      → let ten = take 10 (shown contacts) in
        let (first, second) = build_touch_reports fs flip contacts in
        (first.bytes ≡ layout flip (take 5 ten) (length ten))
        × (second.bytes ≡ layout flip (take 5 (drop 5 ten)) 0)
        × (first.valid ≡ ltb 0 (length ten))
        × (second.valid ≡ ltb 5 (length ten))
  reports_follow_layout flip contacts =
      let same = ap (take 10) (reportable-shown contacts) in
      let (first, second, valid, valid') = reports_are_written fs flip contacts in
      (
        first ∙ ap (λ l. report fs flip (take 5 l) (length l)) same ∙ report-layout flip _ _,
        second ∙ ap (λ l. report fs flip (take 5 (drop 5 l)) 0) same ∙ report-layout flip _ _,
        valid ∙ ap (λ l. ltb 0 (length l)) same,
        valid' ∙ ap (λ l. ltb 5 (length l)) same,
      )
