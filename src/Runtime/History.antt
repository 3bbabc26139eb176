-- ===== src/Runtime/History.antt =====
-- What draining the queue leaves in the history.
use ego_touch_rev.Prelude.{
  ℕ, zero, suc, ◌+◌, ◌-◌, ◌≤◌, ◌≡◌, refl, sym, ap, ◌∙◌, arith, List, [], ◌∷◌, ◌++◌, Bool,
  if◌then◌else◌, length, length-append, ltb, Bool-cases, inl, inr,
}
use mathlib.Core.List.{append_assoc, append-nil}
use native.Mathlib.Nat.{zero-add, suc-add}
use ego_touch_rev.Afe.{Afe, BusPort, afe_send_command, has_value}
use ego_touch_rev.Runtime.{
  QueuedCommand, HistoryEntry, Runtime, ChipPort, drop_first, record_history,
}
use ego_touch_rev.Runtime.Worker.{drain, drain_commands}
use ego_touch_rev.Runtime.Invariant.{length-drop_first, record_history-bound}

-- The last 512 entries.
unfoldable pub keep : List HistoryEntry → List HistoryEntry
unfolding drop_first
keep xs = drop_first (length xs - 512) xs

drop_first-append :
    (n : ℕ) (xs ys : List HistoryEntry)
    → n ≤ length xs
    → drop_first n (xs ++ ys) ≡ drop_first n xs ++ ys
unfolding drop_first
drop_first-append zero xs ys le = refl
drop_first-append (suc n) [] ys le = absurd (omega arith)
drop_first-append (suc n) (x ∷ xs) ys le = drop_first-append n xs ys (omega arith)

drop_first-nil : (n : ℕ) → drop_first {A = HistoryEntry} n [] ≡ []
unfolding drop_first
drop_first-nil zero = refl
drop_first-nil (suc n) = refl

drop_first-twice :
    (m n : ℕ) (xs : List HistoryEntry) → drop_first m (drop_first n xs) ≡ drop_first (n + m) xs
unfolding drop_first
drop_first-twice m zero xs = ap (λ k. drop_first k xs) (sym (zero-add m))
drop_first-twice m (suc n) [] = drop_first-nil m ∙ sym (drop_first-nil (suc n + m))
drop_first-twice m (suc n) (x ∷ xs) =
    drop_first-twice m n xs ∙ ap (λ k. drop_first k (x ∷ xs)) (sym (suc-add n m))

keep-append : (xs ys : List HistoryEntry) → keep (keep xs ++ ys) ≡ keep (xs ++ ys)
unfolding keep
keep-append xs ys =
    let n = length xs - 512 in
    ap keep (sym (drop_first-append n xs ys (omega arith)))
    ∙ drop_first-twice (length (drop_first n (xs ++ ys)) - 512) n (xs ++ ys)
    ∙ ap (λ k. drop_first k (xs ++ ys))
        (omega (length-drop_first n (xs ++ ys), length-append xs ys, arith))

entry : QueuedCommand → Bool → HistoryEntry
entry qc ok = record {
  command_id = qc.id;
  command_name = qc.reason;
  source = qc.source;
  success = ok;
}

nothing-over : (n : ℕ) → n ≤ 512 → n - 512 ≡ 0
nothing-over n h = omega arith

keep-short : (xs : List HistoryEntry) → length xs ≤ 512 → keep xs ≡ xs
unfolding keep drop_first
keep-short xs h = ap (λ k. drop_first k xs) (nothing-over (length xs) h)

trim-keep :
    (xs : List HistoryEntry)
    → (if ltb 512 (length xs) then drop_first (length xs - 512) xs else xs) ≡ keep xs
unfolding keep
trim-keep xs = elim (Bool-cases (ltb 512 (length xs))) [
  | inl e ↦ rw e refl
  | inr e ↦ rw e (sym (keep-short xs (ground (arith, e))))
]

record_history-keep :
    (qc : QueuedCommand) (ok : Bool) (history : List HistoryEntry)
    → record_history qc ok history ≡ keep (history ++ entry qc ok ∷ [])
unfolding record_history keep entry
record_history-keep qc ok history = trim-keep (history ++ entry qc ok ∷ [])

-- What executing the commands of the queue, in order, adds to the history.
unfoldable pub executed : {B : Type 0} → BusPort B → List QueuedCommand → Afe B → List HistoryEntry
unfolding entry
executed bus [] c = []
executed bus (qc ∷ queue) c =
    let (res, c') = afe_send_command bus qc.cmd qc.param c in
    entry qc (has_value res) ∷ executed bus queue c'

module _ {B : Type 0} (bus : BusPort B) (chip : ChipPort B) where
  drain-empties :
      (queue : List QueuedCommand) (r : Runtime B) → (drain bus chip queue r).cmd_queue ≡ []
  unfolding drain
  drain-empties [] r = refl
  drain-empties (qc ∷ queue) r =
      let (res, c) = afe_send_command bus qc.cmd qc.param r.chip in
      drain-empties queue (record r {
        last_cmd_id = qc.id;
        chip = c;
        history = record_history qc (has_value res) r.history;
      })

  drain-keep :
      (queue : List QueuedCommand) (r : Runtime B)
      → length r.history ≤ 512
      → (drain bus chip queue r).history ≡ keep (r.history ++ executed bus queue r.chip)
  unfolding drain executed
  drain-keep [] r h = sym (ap keep (append-nil r.history) ∙ keep-short r.history h)
  drain-keep (qc ∷ queue) r h =
      let (res, c) = afe_send_command bus qc.cmd qc.param r.chip in
      let added = record_history qc (has_value res) r.history in
      let rest = executed bus queue c in
      drain-keep queue (record r { last_cmd_id = qc.id; chip = c; history = added })
        (record_history-bound qc (has_value res) r.history)
      ∙ ap (λ h'. keep (h' ++ rest)) (record_history-keep qc (has_value res) r.history)
      ∙ keep-append (r.history ++ entry qc (has_value res) ∷ []) rest
      ∙ ap keep (append_assoc r.history (entry qc (has_value res) ∷ []) rest)

  -- Draining executes the whole queue, its front first and every command once, failed or not: the queue
  -- is empty then, and if the history had at most 512 entries, it is the last 512 of what it was and of
  -- the executed commands.
  pub drain_executes_queue :
      (r : Runtime B)
      → length r.history ≤ 512
      → ((drain_commands bus chip r).cmd_queue ≡ [])
        × ((drain_commands bus chip r).history
            ≡ keep (r.history ++ executed bus r.cmd_queue r.chip))
  unfolding drain_commands
  drain_executes_queue r h = (drain-empties r.cmd_queue r, drain-keep r.cmd_queue r h)
