-- ===== src/Owner/Race/Exact.antt =====
-- Overlapping publishes: a call between whose read and append no other takes a turn.
use ce_pubsub.Prelude.{
  ℕ, ◌+◌, ◌≤◌, ◌<◌, ◌≡◌, ◌==◌, Bool-cases, refl, sym, ap, ◌∙◌, some, List, [], ◌∷◌, ◌++◌, arith,
  length, length-append, Option-cases, inl, inr,
}
use ce_pubsub.Prelude.Order.{Text}
use ce_pubsub.Prelude.Words.{u64_mod}
use ce_pubsub.Prelude.Result.{ok}
use ce_pubsub.Message.{Cursor, Message}
use ce_pubsub.Log
use ce_pubsub.Log.Invariant.{IsWellFormed, apply-IsWellFormed}
use ce_pubsub.Log.Append.{get-append, get-append_old}
use ce_pubsub.Owner.{Owner, World, Applies}
use ce_pubsub.Owner.Sound.{reach, StepsLog}
use ce_pubsub.Owner.Race.{
  Point, called, stamped, appended, returned, failed, Call, Race, advance, turn, run,
}
use ce_pubsub.Owner.Race.Turns.{reach-turn}
use ce_pubsub.Owner.Race.Overtaken.{outcome, outcome-eq-ok, At, turn-At, run_begun}

module _ (w : World) (steps : StepsLog w) where
  -- A turn keeps the log well formed, and what is found in it.
  advance-keeps :
      (o : Owner) (m : Message) (p : Point)
      → IsWellFormed o.log
      → reach o.log + 1 < u64_mod
      → IsWellFormed (advance w o m p).0.log
        × ((k : Cursor) (x : Message)
            → Log.get o.log k ≡ some x
            → Log.get (advance w o m p).0.log k ≡ some x)
  unfolding advance
  advance-keeps o m called v room = (v, λ k x h. h)
  advance-keeps o m appended v room = (v, λ k x h. h)
  advance-keeps o m returned v room = (v, λ k x h. h)
  advance-keeps o m (failed why) v room = (v, λ k x h. h)
  advance-keeps o m stamped v room = elim (steps.steps o.log (Log.append m)) [
    | inl did ↦
        rw did (apply-IsWellFormed (Log.append m) v room, λ k x h. get-append_old m k v room h)
    | inr same ↦ rw same (v, λ k x h. h)
  ]

  turn-keeps :
      (r : Race) (i : ℕ)
      → IsWellFormed r.owner.log
      → reach r.owner.log + 1 < u64_mod
      → IsWellFormed (turn w r i).owner.log
        × ((k : Cursor) (x : Message)
            → Log.get r.owner.log k ≡ some x
            → Log.get (turn w r i).owner.log k ≡ some x)
  unfolding turn
  turn-keeps r i = advance-keeps r.owner (r.calls i).msg (r.calls i).point

  run-keeps :
      (r : Race) (schedule : List ℕ)
      → IsWellFormed r.owner.log
      → reach r.owner.log + length schedule < u64_mod
      → IsWellFormed (run w r schedule).owner.log
        × (reach (run w r schedule).owner.log ≤ reach r.owner.log + length schedule)
        × ((k : Cursor) (x : Message)
            → Log.get r.owner.log k ≡ some x
            → Log.get (run w r schedule).owner.log k ≡ some x)
  run-keeps r [] v room = (v, omega arith, λ k x h. h)
  run-keeps r (i ∷ schedule) v room =
      let more = reach-turn w r i steps in
      let (v1, keep1) = turn-keeps r i v (omega arith) in
      let (v2, more2, keep2) = run-keeps (turn w r i) schedule v1 (omega arith) in
      (v2, omega arith, λ k x h. keep2 k x (keep1 k x h))

run-append : (w : World) (r : Race) (xs ys : List ℕ) → run w r (xs ++ ys) ≡ run w (run w r xs) ys
run-append w r [] ys = refl
run-append w r (x ∷ xs) ys = run-append w (turn w r x) xs ys

run_failed :
    (w : World) (r : Race) (i : ℕ) (schedule : List ℕ) (why : Text)
    → (r.calls i).point ≡ failed why
    → ((run w r schedule).calls i).point ≡ failed why
unfolding turn advance
run_failed w r i [] why h = h
run_failed w r i (k ∷ schedule) why h = elim (Bool-cases (k == i)) [
  | inl e ↦
      let same : k ≡ i = ground arith in
      run_failed w (turn w r k) i schedule why (rw (turn, e, same, h, advance) refl)
  | inr e ↦ run_failed w (turn w r k) i schedule why (rw (turn, e) h)
]

-- The call takes its first two turns now.
exact_now :
    (w : World) (r : Race) (after : List ℕ) (i : ℕ) (c : Cursor)
    → Applies w
    → StepsLog w
    → IsWellFormed r.owner.log
    → reach r.owner.log + length (i ∷ i ∷ after) < u64_mod
    → (r.calls i).point ≡ called
    → let r' = run w r (i ∷ i ∷ after) in
      outcome (r'.calls i) ≡ some (ok c)
      → Log.get r'.owner.log c ≡ some (record (r.calls i).msg { cursor = c })
unfolding advance outcome
exact_now w r after i c applies steps v room new returns =
    let l = r.owner.log in
    let m : Message = record (r.calls i).msg { cursor = Log.next_cursor l } in
    let o : Owner = record r.owner { log = (w.propose_log l (Log.append m)).0 } in
    let r1 = turn w r i in
    let r2 = turn w r1 i in
    let r' = run w r2 after in
    let first = turn-At w r i (refl, λ k. record { msg = (r.calls i).msg; point = new k }) refl in
    elim (Option-cases (w.propose_log l (Log.append m)).1) [
      | inl fine ↦
          let (owner, here) : At r2 i o (record { msg = m; point = appended }) =
            turn-At w r1 i first (rw (advance, fine) refl) in
          let did = applies.log_applied l (Log.append m) fine in
          let log : r2.owner.log ≡ Log.apply l (Log.append m) =
            ap (λ (x : Owner). x.log) owner ∙ did in
          let (v1, _) = turn-keeps w steps r i v (omega arith) in
          let (v2, more2, _) = run-keeps w steps r (i ∷ i ∷ []) v (omega arith) in
          let (_, _, keep) = run-keeps w steps r2 after v2 (omega arith) in
          let (c_eq, _) = outcome-eq-ok (r'.calls i).msg (r'.calls i).point c returns in
          let same =
            sym c_eq
            ∙ ap (λ (x : Message). x.cursor) (run_begun w r2 i after (rw here refl))
            ∙ ap (λ (x : Call). x.msg.cursor) here in
          rw same (keep (Log.next_cursor l) m (rw log (get-append m v (omega arith))))
      | inr (why, bad) ↦
          let (owner, here) : At r2 i o (record { msg = m; point = failed why }) =
            turn-At w r1 i first (rw (advance, bad) refl) in
          let stays = run_failed w r2 i after why (rw here refl) in
          let (_, done) = outcome-eq-ok (r'.calls i).msg (r'.calls i).point c returns in
          absurd (ground (arith, rw stays at done))
    ]

-- A call of `append_and_fanout` whose first two turns follow on each other, whatever turns other
-- calls take before and after, and that returns a cursor, finds its message in the log at that
-- cursor; the log was well formed at the start with a cursor left for each turn, a proposal
-- applies its operation or changes nothing, and one without an error is applied.
pub exact :
    (w : World) (r : Race) (before after : List ℕ) (i : ℕ) (c : Cursor)
    → Applies w
    → StepsLog w
    → IsWellFormed r.owner.log
    → reach r.owner.log + length (before ++ i ∷ i ∷ after) < u64_mod
    → ((run w r before).calls i).point ≡ called
    → let r' = run w r (before ++ i ∷ i ∷ after) in
      outcome (r'.calls i) ≡ some (ok c)
      → Log.get r'.owner.log c ≡ some (record ((run w r before).calls i).msg { cursor = c })
unfolding advance
exact w r before after i c applies steps v room new returns =
    let split = run-append w r before (i ∷ i ∷ after) in
    let sum = length-append before (i ∷ i ∷ after) in
    let r1 = run w r before in
    let (v1, more1, _) = run-keeps w steps r before v (omega arith) in
    rw split (exact_now w r1 after i c applies steps v1 (omega arith) new (rw split at returns))
