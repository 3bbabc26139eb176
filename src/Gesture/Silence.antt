-- ===== src/Gesture/Silence.antt =====
-- The contact of a slot carries its number, and rewriting forgets that it was silenced.
use ego_touch_rev.Prelude.{
  ℕ, zero, suc, ◌+◌, ◌≡◌, refl, sym, ◌∙◌, ap, arith, List, [], ◌∷◌, map, true, Option, none, some,
  get_elem?, set, inl, inr, Bool-cases, Option-cases,
}
use ego_touch_rev.Prelude.Float.{FloatOps}
use ego_touch_rev.Engine.{TouchContact}
use ego_touch_rev.Gesture.{GestureSlot, GesturePhase, Tuning}
use ego_touch_rev.Gesture.Process.{
  slot_index, is_index, is_up, last_with_slot, not_up, contact_for_slot, deref, unreport, suppress,
  rewrite_for, rewrite_contact,
}

some_inj : {A : Type 0} (a b : A) → some a ≡ some b → a ≡ b
some_inj a b e = cc

is_index-eq : (i : ℕ) (o : Option ℕ) → is_index i o ≡ true → o ≡ some i
is_index-eq i none h = ground (arith, h)
is_index-eq i (some j) h = let e : j ≡ i = ground (arith, h) in ap some e

module _ {F : Type 0} where
  -- The contact that a search finds carries the number of the slot.
  record IsFound (i k : ℕ) (cs : List (TouchContact F)) (j : ℕ) : Type 0 where
    at : ℕ
    place : j ≡ k + at
    contact : TouchContact F
    there : get_elem? cs at ≡ some contact
    number : slot_index contact.id ≡ some i

  last_with_slot-IsFound :
      (i k : ℕ) (cs : List (TouchContact F)) (j : ℕ)
      → last_with_slot i k cs ≡ some j
      → IsFound i k cs j
  unfolding last_with_slot
  last_with_slot-IsFound i k [] j = λ e. ground (arith, e)
  last_with_slot-IsFound i k (c ∷ cs) j = elim (Option-cases (last_with_slot i (k + 1) cs)) [
    | inr (l, f) ↦ rw f (λ e.
        let found = last_with_slot-IsFound i (k + 1) cs l f in
        let same = some_inj l j e in
        record {
          at = suc found.at;
          place = omega (arith, found.place, same);
          contact = found.contact;
          there = found.there;
          number = found.number;
        })
    | inl f ↦ elim (Bool-cases (is_index i (slot_index c.id))) [
      | inl t ↦
          rw (f, t)
            (λ e.
              let same = some_inj k j e in
              record {
                at = 0;
                place = omega (arith, same);
                contact = c;
                there = refl;
                number = is_index-eq i (slot_index c.id) t;
              })
      | inr t ↦ rw (f, t) (λ e. ground (arith, e))
    ]
  ]

  not_up-deref :
      (cs : List (TouchContact F)) (o : Option ℕ) (c : TouchContact F)
      → deref cs (not_up cs o) ≡ some c
      → deref cs o ≡ some c
  not_up-deref cs none c = λ e. e
  not_up-deref cs (some k) c = elim (Option-cases (get_elem? cs k)) [
    | inl f ↦ rw (f, not_up) (λ e. ground (arith, e))
    | inr (d, f) ↦ elim (Bool-cases (is_up d.state)) [
      | inl t ↦ rw (f, t, not_up) (λ e. ground (arith, e))
      | inr t ↦ rw (f, t, not_up) (λ e. sym f ∙ e)
    ]
  ]

  pub contact_for_slot-number :
      (cs : List (TouchContact F)) (i : ℕ) (c : TouchContact F)
      → deref cs (contact_for_slot cs i) ≡ some c
      → slot_index c.id ≡ some i
  unfolding contact_for_slot
  contact_for_slot-number cs i c h = by_search (not_up-deref cs (last_with_slot i 0 cs) c h)
    where
      by_search : deref cs (last_with_slot i 0 cs) ≡ some c → slot_index c.id ≡ some i
      by_search = elim (Option-cases (last_with_slot i 0 cs)) [
        | inl f ↦ rw f (λ e. ground (arith, e))
        | inr (k, f) ↦ rw f (λ e.
            let found = last_with_slot-IsFound i 0 cs k f in
            let p : found.at ≡ k = omega (arith, found.place) in
            let same = some_inj c found.contact (sym e ∙ ap (get_elem? cs) (sym p) ∙ found.there) in
            ap (λ d. slot_index d.id) same ∙ found.number)
      ]

module _ {F : Type 0} (fl : FloatOps F) (cfg : Tuning F) where
  rewrite_for-unreport :
      (phase : GesturePhase) (slot : GestureSlot F) (c : TouchContact F)
      → rewrite_for fl cfg phase slot (unreport c) ≡ rewrite_for fl cfg phase slot c
  unfolding rewrite_for
  rewrite_for-unreport GesturePhase.idle slot c = refl
  rewrite_for-unreport GesturePhase.press_candidate slot c = refl
  rewrite_for-unreport GesturePhase.dragging slot c = refl
  rewrite_for-unreport GesturePhase.long_press_hold slot c = refl
  rewrite_for-unreport GesturePhase.release_pending slot c = refl

  -- A contact of a slot is rewritten from it.
  pub rewrite_contact-unreport :
      (slots : List (GestureSlot F)) (i : ℕ) (slot : GestureSlot F) (c : TouchContact F)
      → slot_index c.id ≡ some i
      → get_elem? slots i ≡ some slot
      → rewrite_contact fl cfg slots (unreport c) ≡ rewrite_contact fl cfg slots c
  unfolding rewrite_contact
  rewrite_contact-unreport slots i slot c e f =
      rw (e, f, rewrite_contact) (rewrite_for-unreport slot.phase slot c)

  map-set :
      (slots : List (GestureSlot F)) (cs : List (TouchContact F)) (k : ℕ) (c : TouchContact F)
      → get_elem? cs k ≡ some c
      → rewrite_contact fl cfg slots (unreport c) ≡ rewrite_contact fl cfg slots c
      → map (rewrite_contact fl cfg slots) (set cs k (unreport c))
        ≡ map (rewrite_contact fl cfg slots) cs
  map-set slots [] k c e f = refl
  map-set slots (d ∷ cs) zero c e f =
      let same = some_inj d c e in
      ap (λ x. x ∷ map (rewrite_contact fl cfg slots) cs)
        (f ∙ ap (rewrite_contact fl cfg slots) (sym same))
  map-set slots (d ∷ cs) (suc k) c e f =
      ap (λ l. rewrite_contact fl cfg slots d ∷ l) (map-set slots cs k c e f)

  -- Rewriting the contacts of which the one at `o` was silenced, where that one has slot `i`.
  pub map-suppress :
      (slots : List (GestureSlot F)) (cs : List (TouchContact F)) (o : Option ℕ) (i : ℕ)
      (slot : GestureSlot F)
      → get_elem? slots i ≡ some slot
      → ((c : TouchContact F) → deref cs o ≡ some c → slot_index c.id ≡ some i)
      → map (rewrite_contact fl cfg slots) (suppress cs o) ≡ map (rewrite_contact fl cfg slots) cs
  unfolding suppress
  map-suppress slots cs none i slot f h = refl
  map-suppress slots cs (some k) i slot f h = elim (Option-cases (get_elem? cs k)) [
    | inl e ↦ rw (e, suppress) refl
    | inr (c, e) ↦
        rw (e, suppress)
          (map-set slots cs k c e (rewrite_contact-unreport slots i slot c (h c e) f))
  ]
