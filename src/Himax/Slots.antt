-- ===== src/Himax/Slots.antt =====
-- The five command slots under a sequence of commands.
use ego_touch_rev.Prelude.{
  ℕ, ◌+◌, ◌%◌, ◌<◌, ◌≡◌, refl, ap, ◌∙◌, inl, inr, arith, List, [], ◌∷◌, if◌then◌else◌, Bool-cases,
}
use ego_touch_rev.Himax.{master, Board, is_done}
use ego_touch_rev.Himax.Hal.{Os}
use ego_touch_rev.Himax.Protocol.{send_command}
use ego_touch_rev.Himax.Steady.Setup.{send_command-IsAdvance}

module _ {W : Type 0} (os : Os W) where
  -- The commands one after another, and how many of them the chip answered.
  unfoldable pub send_all : List (ℕ × ℕ) → Board W → ℕ × Board W
  send_all [] b = (0, b)
  send_all ((id, val) ∷ commands) b =
      let (r, b1) = send_command os master id val b in
      let (n, b2) = send_all commands b1 in ((if is_done r then n + 1 else n), b2)

  send-slot :
      (id val : ℕ) (b : Board W)
      → let (r, b1) = send_command os master id val b in
        b1.current_slot ≡ (if is_done r then (b.current_slot + 1) % 5 else b.current_slot)
  send-slot id val b =
      let moved = ap (λ s. s.current_slot) ((send_command-IsAdvance os master id val).moves b) in
      elim (Bool-cases (is_done (send_command os master id val b).0)) [
        | inl e ↦ rw e (moved ∙ rw e refl)
        | inr e ↦ rw e (moved ∙ rw e refl)
      ]

  -- After any sequence of commands, the failed ones included, the slot has moved on by the number of
  -- commands that the chip answered, modulo five.
  pub slot_counts_answers :
      (commands : List (ℕ × ℕ)) (b : Board W)
      → b.current_slot < 5
      → (send_all commands b).1.current_slot ≡ (b.current_slot + (send_all commands b).0) % 5
  unfolding send_all
  slot_counts_answers [] b h = omega arith
  slot_counts_answers ((id, val) ∷ commands) b h =
      let b1 = (send_command os master id val b).1 in
      ground (arith, send-slot id val b, slot_counts_answers commands b1)
