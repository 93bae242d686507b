-- ===== src/Owner/Race/Turns.antt =====
-- Where the messages of overlapping publishes land in the log, whatever the order of the turns.
use ce_pubsub.Prelude.{
  ℕ, suc, ◌+◌, ◌≤◌, ◌<◌, ◌≡◌, ◌≢◌, ◌⊎◌, refl, List, [], ◌∷◌, arith, ◌==◌, true, length, Bool-cases,
  Option-cases, inl, inr,
}
use ce_pubsub.Prelude.Words.{u64_mod}
use ce_pubsub.Message.{Cursor, Message}
use ce_pubsub.Log
use ce_pubsub.Log.{TopicLog}
use ce_pubsub.Log.Invariant.{IsWellFormed, next_cursor-eq}
use ce_pubsub.Owner.{Owner, World, Applies}
use ce_pubsub.Owner.Sound.{reach, StepsLog}
use ce_pubsub.Owner.Race.{
  Point, called, stamped, appended, returned, failed, Call, Race, update, advance, turn, run,
}
use ce_pubsub.Owner.Race.Landing.{
  has_appended, Landed, Inv, reach-append, Fine-landed, Inv-quiet, Inv-append,
}

reach-advance :
    (w : World) (o : Owner) (m : Message) (p : Point)
    → StepsLog w
    → reach (advance w o m p).0.log ≤ suc (reach o.log)
unfolding advance
reach-advance w o m called steps = omega arith
reach-advance w o m appended steps = omega arith
reach-advance w o m returned steps = omega arith
reach-advance w o m (failed why) steps = omega arith
reach-advance w o m stamped steps = elim (steps.steps o.log (Log.append m)) [
  | inl did ↦ rw did (omega (arith, reach-append o.log m))
  | inr same ↦ rw same (omega arith)
]

pub reach-turn :
    (w : World) (r : Race) (i : ℕ)
    → StepsLog w
    → reach (turn w r i).owner.log ≤ suc (reach r.owner.log)
unfolding turn
reach-turn w r i steps = reach-advance w r.owner (r.calls i).msg (r.calls i).point steps

module _ (w : World) (applies : Applies w) (steps : StepsLog w) {l0 : TopicLog}
    {ms : ℕ → Message} where
  -- A call that waits for its append gets on.
  stamped-turn :
      {r : Race} {place : ℕ → Cursor} (i : ℕ)
      → Inv l0 ms r place
      → reach r.owner.log + 1 < u64_mod
      → (r.calls i).point ≡ stamped
      → (place' : ℕ → Cursor) × Inv l0 ms (turn w r i) place'
  unfolding turn advance
  stamped-turn {r} {place} i inv room at =
      let m = (r.calls i).msg in
      let l = r.owner.log in
      let old = inv.each i in
      elim (Option-cases (w.propose_log l (Log.append m)).1) [
        | inl fine ↦
            let c : Call = record { msg = m; point = appended } in
            let o : Owner = record r.owner { log = (w.propose_log l (Log.append m)).0 } in
            (
              update place i (suc (reach l)),
              rw (at, turn, advance, fine)
                  (Inv-append inv i o c (suc (reach l)) m room
                    (applies.log_applied l (Log.append m) fine)
                    (Fine-landed inv.log room (ms i) (r.calls i) (place i) inv.longer old at)
                    (λ h. refl)),
            )
        | inr (why, bad) ↦
            let c : Call = record { msg = m; point = failed why } in
            let o : Owner = record r.owner { log = (w.propose_log l (Log.append m)).0 } in
            elim (steps.steps l (Log.append m)) [
              | inl did ↦ (
                update place i 0,
                rw (at, turn, advance, bad)
                    (Inv-append inv i o c 0 m room did
                      (record {
                        kept = old.kept;
                        behind = λ h. absurd (cc);
                        landed = λ h. absurd (cc);
                      })
                      (λ h. absurd (cc))),
              )
              | inr same ↦ (
                place,
                rw (at, turn, advance, bad)
                    (Inv-quiet inv i o c same
                      (record {
                        kept = old.kept;
                        behind = λ h. absurd (cc);
                        landed = λ h. absurd (cc);
                      })
                      (λ h. absurd (cc))),
              )
            ]
      ]

  at_point :
      {r : Race} {place : ℕ → Cursor} (i : ℕ) (p : Point)
      → Inv l0 ms r place
      → reach r.owner.log + 1 < u64_mod
      → (r.calls i).point ≡ p
      → (place' : ℕ → Cursor) × Inv l0 ms (turn w r i) place'
  unfolding turn advance
  at_point i stamped inv room at = stamped-turn i inv room at
  at_point {r} {place} i called inv room at = (
    place,
    rw (at, turn, advance)
        (Inv-quiet inv i r.owner _ refl
          (record {
            kept = (inv.each i).kept;
            behind = λ h. omega (arith, next_cursor-eq inv.log room);
            landed = λ h. absurd (cc);
          })
          (λ h. absurd (cc))),
  )
  at_point {r} {place} i appended inv room at = (
    place,
    rw (at, turn, advance)
        (Inv-quiet inv i _ _ refl
          (record {
            kept = (inv.each i).kept;
            behind = λ h. (inv.each i).behind (rw at refl);
            landed = λ h. (inv.each i).landed (rw at refl);
          })
          (λ h. rw at refl)),
  )
  at_point {r} {place} i returned inv room at = (
    place,
    rw (at, turn, advance)
        (Inv-quiet inv i _ _ refl
          (record {
            kept = (inv.each i).kept;
            behind = λ h. (inv.each i).behind (rw at refl);
            landed = λ h. (inv.each i).landed (rw at refl);
          })
          (λ h. rw at refl)),
  )
  at_point {r} {place} i (failed why) inv room at = (
    place,
    rw (at, turn, advance)
        (Inv-quiet inv i _ _ refl
          (record {
            kept = (inv.each i).kept;
            behind = λ h. absurd (cc);
            landed = λ h. absurd (cc);
          })
          (λ h. absurd (cc))),
  )

  run-Inv :
      (r : Race) (place : ℕ → Cursor) (schedule : List ℕ)
      → Inv l0 ms r place
      → reach r.owner.log + length schedule < u64_mod
      → (place' : ℕ → Cursor) × Inv l0 ms (run w r schedule) place'
  run-Inv r place [] inv room = (place, inv)
  run-Inv r place (i ∷ schedule) inv room =
      let (place', inv') = at_point i (r.calls i).point inv (omega arith) refl in
      run-Inv (turn w r i) place' schedule inv' (omega (arith, reach-turn w r i steps))

-- Whatever the order in which calls of `append_and_fanout` take their turns, from a well-formed
-- log with a cursor left for each turn, where no call has begun, a proposal applies its operation
-- or changes nothing, and one without an error is applied: the log stays well formed, and any two
-- calls that have appended find their messages in it, with nothing but the cursor changed, at
-- cursors that are new, not below the ones they hold, and different unless they are the same
-- call.
pub run_lands :
    (w : World) (r : Race) (schedule : List ℕ) (i j : ℕ)
    → Applies w
    → StepsLog w
    → IsWellFormed r.owner.log
    → reach r.owner.log + length schedule < u64_mod
    → ((n : ℕ) → (r.calls n).point ≡ called)
    → let r' = run w r schedule in
      has_appended (r'.calls i).point ≡ true
      → has_appended (r'.calls j).point ≡ true
      → (a b : Cursor) × Landed r.owner.log r'.owner.log (r.calls i).msg (r'.calls i) a
        × Landed r.owner.log r'.owner.log (r.calls j).msg (r'.calls j) b
        × ((i ≡ j) ⊎ (a ≢ b))
        × IsWellFormed r'.owner.log
run_lands w r schedule i j applies steps v room new hi hj =
    let (place, inv) = run-Inv w applies steps r (λ n. 0) schedule start room in
    (
      place i,
      place j,
      (inv.each i).landed hi,
      (inv.each j).landed hj,
      elim (Bool-cases (i == j)) [
        | inl same ↦ inl (ground arith)
        | inr apart ↦ inr (λ e. let same = inv.apart i j hi hj e in absurd (ground arith))
      ],
      inv.log,
    )
  where
    start : Inv r.owner.log (λ n. (r.calls n).msg) r (λ n. 0)
    start = record {
      log = v;
      longer = omega arith;
      each = λ n. record {
        kept = refl;
        behind = λ h. absurd (ground (arith, new n));
        landed = λ h. absurd (ground (arith, new n));
      };
      apart = λ n k hn hk e. absurd (ground (arith, new n));
    }
