-- ===== src/Gesture/Slotwise.antt =====
-- The three loops of `Process` treat every slot by itself.
use ego_touch_rev.Prelude.{
  ℕ, zero, suc, ◌+◌, List, [], ◌∷◌, ◌++◌, map, Bool, true, false, Option, none, some, if◌then◌else◌,
  get_elem?, set, ◌≡◌, refl, arith, inl, inr, ap, ap₂, All, ◌∙◌, Option-cases, sym, Bool-cases,
}
use mathlib.Core.Option
use ego_touch_rev.Prelude.Float.{FloatOps}
use ego_touch_rev.Engine.{TouchContact}
use ego_touch_rev.Gesture.{GestureSlot, Tuning}
use ego_touch_rev.Gesture.Slot.{update_slot}
use ego_touch_rev.Gesture.Process.{
  slot_turn, is_overdue, after_up, unreport, suppress, deref, update_slots, emit_ups, up_event,
  process, contact_for_slot, is_residual, rewrite_contact,
}
use ego_touch_rev.Gesture.Invariant.{IsValid, InRange, slot_frame, slot_frame-IsValid}

module _ {F : Type 0} where
  -- The contacts without what silencing changes.
  abbrev pub quietly : List (TouchContact F) → List (TouchContact F)
  quietly = map unreport

  quietly-set :
      (cs : List (TouchContact F)) (k : ℕ) (c : TouchContact F)
      → get_elem? cs k ≡ some c
      → quietly (set cs k (unreport c)) ≡ quietly cs
  quietly-set [] k c h = refl
  quietly-set (d ∷ cs) zero c h = cc
  quietly-set (d ∷ cs) (suc k) c h = ap (λ l. unreport d ∷ l) (quietly-set cs k c h)

  quietly-suppress :
      (cs : List (TouchContact F)) (p : Option ℕ) → quietly (suppress cs p) ≡ quietly cs
  unfolding suppress
  quietly-suppress cs none = refl
  quietly-suppress cs (some k) = elim (Option-cases (get_elem? cs k)) [
    | inl e ↦ rw (e, suppress)
    | inr (c, e) ↦ rw (e, suppress) (quietly-set cs k c e)
  ]

  pub quietly-silenced :
      (b : Bool) (cs : List (TouchContact F)) (p : Option ℕ)
      → quietly (if b then suppress cs p else cs) ≡ quietly cs
  quietly-silenced true cs p = quietly-suppress cs p
  quietly-silenced false cs p = refl

  pub deref-quietly :
      (cs : List (TouchContact F)) (p : Option ℕ)
      → deref (quietly cs) p ≡ Option.map unreport (deref cs p)
  deref-quietly cs none = refl
  deref-quietly [] (some k) = refl
  deref-quietly (c ∷ cs) (some zero) = refl
  deref-quietly (c ∷ cs) (some (suc k)) = deref-quietly cs (some k)

module _ {F : Type 0} (fl : FloatOps F) (cfg : Tuning F) where
  slot_turn-unreport :
      (s : GestureSlot F) (o : Option (TouchContact F))
      → slot_turn fl cfg s (Option.map unreport o) ≡ slot_turn fl cfg s o
  unfolding slot_turn update_slot
  slot_turn-unreport s none = refl
  slot_turn-unreport s (some c) = ground arith

  -- What silencing changes in a contact plays no part in the slot's next state.
  slot_turn-quietly :
      (s : GestureSlot F) (cs ds : List (TouchContact F)) (p : Option ℕ)
      → quietly cs ≡ quietly ds
      → slot_turn fl cfg s (deref cs p) ≡ slot_turn fl cfg s (deref ds p)
  slot_turn-quietly s cs ds p same = cc (
    slot_turn-unreport s (deref cs p),
    slot_turn-unreport s (deref ds p),
    ap (slot_turn fl cfg s) (deref-quietly cs p),
    ap (slot_turn fl cfg s) (deref-quietly ds p),
    ap (λ l. slot_turn fl cfg s (deref l p)) same,
  )

  -- The slots after one frame, each by itself, from the contacts as they came in.
  unfoldable pub frame_slots :
      (ℕ → Option ℕ) → ℕ → List (GestureSlot F) → List (TouchContact F) → List (GestureSlot F)
  frame_slots at i [] cs = []
  frame_slots at i (s ∷ ss) cs =
      (slot_frame fl cfg s (deref cs (at i))).0 ∷ frame_slots at (i + 1) ss cs

  emit_ups-frame_slots :
      (at : ℕ → Option ℕ) (i j : ℕ) (ss : List (GestureSlot F)) (cs ds es : List (TouchContact F))
      → quietly cs ≡ quietly ds
      → (emit_ups fl cfg j (update_slots fl cfg at i ss cs).0 es).0 ≡ frame_slots at i ss ds
  unfolding emit_ups update_slots frame_slots slot_frame
  emit_ups-frame_slots at i j [] cs ds es same = refl
  emit_ups-frame_slots at i j (s ∷ ss) cs ds es same =
      ap₂ ◌∷◌ (ap finish (slot_turn-quietly s cs ds (at i) same)) (
        emit_ups-frame_slots at (i + 1) (j + 1) ss cs' ds es'
          (quietly-silenced (is_residual fl cfg s (deref cs (at i))) cs (at i) ∙ same))
    where
      turned : GestureSlot F
      turned = slot_turn fl cfg s (deref cs (at i))

      cs' : List (TouchContact F)
      cs' = if is_residual fl cfg s (deref cs (at i)) then suppress cs (at i) else cs

      es' : List (TouchContact F)
      es' = if is_overdue fl cfg turned then es ++ (up_event fl cfg j turned ∷ []) else es

      finish : GestureSlot F → GestureSlot F
      finish t = if is_overdue fl cfg t then after_up fl cfg else t

  -- The slots behind the first phase, each from its own contact.
  unfoldable pub turned_slots :
      (ℕ → Option ℕ) → ℕ → List (GestureSlot F) → List (TouchContact F) → List (GestureSlot F)
  turned_slots at i [] cs = []
  turned_slots at i (s ∷ ss) cs =
      slot_turn fl cfg s (deref cs (at i)) ∷ turned_slots at (i + 1) ss cs

  -- One Up for each overdue slot, with the number of the slot and its last output.
  unfoldable pub due_ups : ℕ → List (GestureSlot F) → List (TouchContact F)
  due_ups i [] = []
  due_ups i (s ∷ ss) =
      let rest = due_ups (i + 1) ss in
      if is_overdue fl cfg s then up_event fl cfg i s ∷ rest else rest

  append_assoc : (xs ys zs : List (TouchContact F)) → (xs ++ ys) ++ zs ≡ xs ++ (ys ++ zs)
  append_assoc [] ys zs = refl
  append_assoc (x ∷ xs) ys zs = ap (λ l. x ∷ l) (append_assoc xs ys zs)

  append_nil : (xs : List (TouchContact F)) → xs ++ [] ≡ xs
  append_nil [] = refl
  append_nil (x ∷ xs) = ap (λ l. x ∷ l) (append_nil xs)

  emit_ups-appends :
      (i : ℕ) (ss : List (GestureSlot F)) (cs : List (TouchContact F))
      → (emit_ups fl cfg i ss cs).1 ≡ cs ++ due_ups i ss
  unfolding emit_ups due_ups
  emit_ups-appends i [] cs = sym (append_nil cs)
  emit_ups-appends i (s ∷ ss) cs = elim (Bool-cases (is_overdue fl cfg s)) [
    | inl t ↦ rw t (
        emit_ups-appends (i + 1) ss (cs ++ (up_event fl cfg i s ∷ []))
        ∙ append_assoc cs (up_event fl cfg i s ∷ []) (due_ups (i + 1) ss))
    | inr t ↦ rw t (emit_ups-appends (i + 1) ss cs)
  ]

  update_slots-turned :
      (at : ℕ → Option ℕ) (i : ℕ) (ss : List (GestureSlot F)) (cs ds : List (TouchContact F))
      → quietly cs ≡ quietly ds
      → (update_slots fl cfg at i ss cs).0 ≡ turned_slots at i ss ds
  unfolding update_slots turned_slots
  update_slots-turned at i [] cs ds same = refl
  update_slots-turned at i (s ∷ ss) cs ds same = ap₂ ◌∷◌ (slot_turn-quietly s cs ds (at i) same) (
      update_slots-turned at (i + 1) ss
        (if is_residual fl cfg s (deref cs (at i)) then suppress cs (at i) else cs) ds
        (quietly-silenced (is_residual fl cfg s (deref cs (at i))) cs (at i) ∙ same))

  -- The slots, each by itself, and the contacts that were silenced, rewritten and followed by the Ups.
  pub process-slots_apart :
      (slots : List (GestureSlot F)) (cs : List (TouchContact F))
      → ((process fl cfg slots cs).0 ≡ frame_slots (contact_for_slot cs) 0 slots cs)
        × ((process fl cfg slots cs).1
            ≡ map
                (rewrite_contact fl cfg (turned_slots (contact_for_slot cs) 0 slots cs))
                (update_slots fl cfg (contact_for_slot cs) 0 slots cs).1
              ++ due_ups 0 (turned_slots (contact_for_slot cs) 0 slots cs))
  unfolding process
  process-slots_apart slots cs =
      let at = contact_for_slot cs in
      let silenced = (update_slots fl cfg at 0 slots cs).1 in
      (
        emit_ups-frame_slots (contact_for_slot cs) 0 0 slots cs cs
            (map (rewrite_contact fl cfg (update_slots fl cfg (contact_for_slot cs) 0 slots cs).0)
              (update_slots fl cfg (contact_for_slot cs) 0 slots cs).1)
            refl,
        emit_ups-appends 0 (update_slots fl cfg at 0 slots cs).0
              (map (rewrite_contact fl cfg (update_slots fl cfg at 0 slots cs).0) silenced)
            ∙ ap (λ ss. map (rewrite_contact fl cfg ss) silenced ++ due_ups 0 ss)
                (update_slots-turned at 0 slots cs cs refl),
      )

  All-frame_slots :
      (at : ℕ → Option ℕ) (i : ℕ) (ss : List (GestureSlot F)) (cs : List (TouchContact F))
      → InRange cfg
      → All (IsValid cfg) ss
      → All (IsValid cfg) (frame_slots at i ss cs)
  unfolding frame_slots
  All-frame_slots at i [] cs r v = tt
  All-frame_slots at i (s ∷ ss) cs r v =
      (slot_frame-IsValid fl cfg s (deref cs (at i)) r v.0, All-frame_slots at (i + 1) ss cs r v.1)

  -- Every frame keeps the invariant of every slot, with the tuning in the range that `LoadConfig`
  -- allows: coordinates locked to the anchor while pressing or held, a phase to recover to while a
  -- release is pending, and no slot pending beyond its grace window.
  pub process-IsValid :
      (slots : List (GestureSlot F)) (cs : List (TouchContact F))
      → InRange cfg
      → All (IsValid cfg) slots
      → All (IsValid cfg) (process fl cfg slots cs).0
  process-IsValid slots cs r v =
      rw (process-slots_apart slots cs).0 (All-frame_slots (contact_for_slot cs) 0 slots cs r v)
