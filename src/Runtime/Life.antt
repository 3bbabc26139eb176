-- ===== src/Runtime/Life.antt =====
-- The invariant over a whole life.
use ego_touch_rev.Prelude.{ℕ, ◌≡◌, arith, List, [], ◌∷◌, Bool, some, Option-cases, inl, inr}
use ego_touch_rev.Afe.{BusPort}
use ego_touch_rev.Runtime.{EventType, Runtime, ChipPort, submit_command, clear_history}
use ego_touch_rev.Runtime.Worker.{Outside}
use ego_touch_rev.Runtime.Control.{start, wake, respond, ingest_system_event, noted}
use ego_touch_rev.Runtime.Session.{
  Call, iterate, ingest, submit, start_call, clear_call, stop_call, set_auto_mode, set_touch_only,
  set_stylus_vhf, step, life,
}
use ego_touch_rev.Runtime.Invariant.{IsValid, iteration-IsValid, stop-IsValid}

module _ {B : Type 0} (bus : BusPort B) (chip : ChipPort B) where
  start-IsValid :
      (r r' : Runtime B) (b : Bool) → start bus chip r ≡ some (b, r') → IsValid r → IsValid r'
  unfolding start
  start-IsValid r r' b h v = ground arith

  wake-IsValid :
      (o : Outside) (r r' : Runtime B) → wake bus chip o r ≡ some r' → IsValid r → IsValid r'
  unfolding wake start
  wake-IsValid o r r' h v = ground (arith, stop-IsValid bus chip o r v)

  respond-IsValid :
      (o : Outside) (ev : EventType) (r r' : Runtime B)
      → respond bus chip o ev r ≡ some r'
      → IsValid r
      → IsValid r'
  respond-IsValid o ev r r' h v = ground (arith, wake-IsValid o r r')

  ingest-IsValid :
      (o : Outside) (now : ℕ) (ev : EventType) (r r' : Runtime B)
      → ingest_system_event bus chip o now ev r ≡ some r'
      → IsValid r
      → IsValid r'
  unfolding ingest_system_event
  ingest-IsValid o now ev r r' h v = ground (
    arith,
    respond-IsValid o ev
        (record r { last_event_by_type = noted bus chip ev now r.last_event_by_type }) r',
  )

  step-IsValid :
      (c : Call) (r r' : Runtime B) → step bus chip c r ≡ some r' → IsValid r → IsValid r'
  unfolding step submit_command clear_history start
  step-IsValid (iterate o) r r' h v = ground (arith, iteration-IsValid bus chip o r)
  step-IsValid (ingest o now ev) r r' h v = ingest-IsValid o now ev r r' h v
  step-IsValid (submit cmd param source reason) r r' h v = ground arith
  step-IsValid start_call r r' h v = ground arith
  step-IsValid clear_call r r' h v = ground arith
  step-IsValid (stop_call o) r r' h v = ground (arith, stop-IsValid bus chip o r v)
  step-IsValid (set_auto_mode b) r r' h v = ground arith
  step-IsValid (set_touch_only b) r r' h v = ground arith
  step-IsValid (set_stylus_vhf b) r r' h v = ground arith

  -- Whatever calls a valid runtime's life has and whatever the chip answers, at most 30 recoveries and
  -- 2 frame errors are counted and 512 history entries kept, `running` holds exactly while the worker
  -- lives, and a runtime without a worker is in the state quit.
  pub life-IsValid :
      (cs : List Call) (r r' : Runtime B) → life bus chip cs r ≡ some r' → IsValid r → IsValid r'
  unfolding life
  life-IsValid [] r r' h v = ground arith
  life-IsValid (c ∷ cs) r r' h v = elim (Option-cases (step bus chip c r)) [
    | inl e ↦ ground (arith, e)
    | inr (r1, e) ↦ life-IsValid cs r1 r' (ground (arith, e)) (step-IsValid c r r1 e v)
  ]
