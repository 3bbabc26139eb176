-- ===== src/Gesture/Output.antt =====
-- What a whole frame makes of the slots and of the contacts.
use mathlib.Core.Option
use ego_touch_rev.Prelude.{
  ℕ, zero, suc, ◌+◌, ◌<◌, ◌≡◌, refl, sym, ◌∙◌, ap, arith, List, [], ◌∷◌, ◌++◌, map, Bool, true,
  false, Option, none, some, length, get_elem?, if◌then◌else◌,
}
use ego_touch_rev.Prelude.Float.{FloatOps}
use ego_touch_rev.Engine.{TouchContact}
use ego_touch_rev.Gesture.{GestureSlot, Tuning}
use ego_touch_rev.Gesture.Process.{
  slot_index, contact_for_slot, deref, unreport, suppress, is_residual, update_slots,
  rewrite_contact, process,
}
use ego_touch_rev.Gesture.Silence.{contact_for_slot-number, map-suppress}
use ego_touch_rev.Gesture.Slotwise.{
  quietly, quietly-silenced, deref-quietly, frame_slots, turned_slots, due_ups, process-slots_apart,
}

module _ {F : Type 0} where
  -- The contact in the same place of a list that differs in what silencing changes.
  same_number :
      (o p : Option (TouchContact F)) (c : TouchContact F) (i : ℕ)
      → Option.map unreport o ≡ Option.map unreport p
      → ((d : TouchContact F) → p ≡ some d → slot_index d.id ≡ some i)
      → o ≡ some c
      → slot_index c.id ≡ some i
  same_number none p c i same h e = ground (arith, e)
  same_number (some b) none c i same h e = ground (arith, same)
  same_number (some b) (some d) c i same h e =
      let id_b : b.id ≡ d.id = cc in
      let id_c : b.id ≡ c.id = cc in ap slot_index (sym id_c ∙ id_b) ∙ h d refl

module _ {F : Type 0} (fl : FloatOps F) (cfg : Tuning F) where
  get_elem?-append :
      (ss ts : List (GestureSlot F)) (s : GestureSlot F)
      → get_elem? (ss ++ s ∷ ts) (length ss) ≡ some s
  get_elem?-append [] ts s = refl
  get_elem?-append (x ∷ ss) ts s = get_elem?-append ss ts s

  turned-there :
      (at : ℕ → Option ℕ) (i k : ℕ) (ss : List (GestureSlot F)) (ds : List (TouchContact F))
      → k < length ss
      → (t : GestureSlot F) × (get_elem? (turned_slots fl cfg at i ss ds) k ≡ some t)
  unfolding turned_slots
  turned-there at i k [] ds h = absurd (omega arith)
  turned-there at i zero (s ∷ ss) ds h = (_, refl)
  turned-there at i (suc k) (s ∷ ss) ds h = turned-there at (i + 1) k ss ds (omega arith)

  update_slots-silent :
      (at : ℕ → Option ℕ) (i : ℕ) (ss : List (GestureSlot F)) (cs ds : List (TouchContact F))
      (all : List (GestureSlot F))
      → ((j : ℕ) → j < i + length ss → (t : GestureSlot F) × (get_elem? all j ≡ some t))
      → ((j : ℕ) (c : TouchContact F) → deref ds (at j) ≡ some c → slot_index c.id ≡ some j)
      → quietly cs ≡ quietly ds
      → map (rewrite_contact fl cfg all) (update_slots fl cfg at i ss cs).1
        ≡ map (rewrite_contact fl cfg all) cs
  unfolding update_slots
  update_slots-silent at i [] cs ds all there number same = refl
  update_slots-silent at i (s ∷ ss) cs ds all there number same =
      update_slots-silent at (i + 1) ss next ds all (λ j h. there j (omega arith)) number
        (quietly-silenced (is_residual fl cfg s (deref cs (at i))) cs (at i) ∙ same)
      ∙ head_silent (is_residual fl cfg s (deref cs (at i)))
    where
      next : List (TouchContact F)
      next = if is_residual fl cfg s (deref cs (at i)) then suppress cs (at i) else cs

      number_here : (c : TouchContact F) → deref cs (at i) ≡ some c → slot_index c.id ≡ some i
      number_here c =
          same_number (deref cs (at i)) (deref ds (at i)) c i
            (sym (deref-quietly cs (at i))
              ∙ ap (λ l. deref l (at i)) same
              ∙ deref-quietly ds (at i))
            (number i)

      head_silent :
          (b : Bool)
          → map (rewrite_contact fl cfg all) (if b then suppress cs (at i) else cs)
            ≡ map (rewrite_contact fl cfg all) cs
      head_silent true =
          let (t, e) = there i (omega arith) in map-suppress fl cfg all cs (at i) i t e number_here
      head_silent false = refl

  -- `Process` leaves each slot as its own frame does, from the contact that carries its id: no
  -- slot's state depends on another slot. The contacts that come out are those that came in, each
  -- rewritten from its slot as it stands behind the first phase, and behind them one Up for each of these
  -- slots that is overdue, in the order of the slots, and nothing else.
  pub process_slotwise :
      (slots : List (GestureSlot F)) (cs : List (TouchContact F))
      → ((process fl cfg slots cs).0 ≡ frame_slots fl cfg (contact_for_slot cs) 0 slots cs)
        × ((process fl cfg slots cs).1
            ≡ map (rewrite_contact fl cfg (turned_slots fl cfg (contact_for_slot cs) 0 slots cs)) cs
              ++ due_ups fl cfg 0 (turned_slots fl cfg (contact_for_slot cs) 0 slots cs))
  process_slotwise slots cs =
      let at = contact_for_slot cs in
      let turned = turned_slots fl cfg at 0 slots cs in
      let (apart, out) = process-slots_apart fl cfg slots cs in
      (
        apart,
        out
            ∙ ap (λ l. l ++ due_ups fl cfg 0 turned)
                (update_slots-silent at 0 slots cs cs turned
                  (λ j h. turned-there at 0 j slots cs (omega arith)) (contact_for_slot-number cs)
                  refl),
      )
