-- ===== src/Owner/Race/Fanout.antt =====
-- Overlapping publishes: which messages go out on the live stream, and how often.
use ce_pubsub.Prelude.{
  ℕ, ◌≡◌, refl, sym, ap, subst, ◌∙◌, Bool, true, false, not, ◌&&◌, ◌||◌, ◌==◌, List, [], ◌∷◌, ◌++◌,
  map, member, select, arith, Bool-cases, Option-cases, inl, inr, if◌then◌else◌,
}
use mathlib.Core.List.{append-nil, append_assoc}
use ce_pubsub.Message.{Message}
use ce_pubsub.Log
use ce_pubsub.Owner.{Owner, World}
use ce_pubsub.Owner.Race.{
  Point, called, stamped, appended, returned, failed, Race, advance, turn, run,
}
use ce_pubsub.Owner.Race.Overtaken.{run_begun, has_begun}

abbrev pub is_returned : Point → Bool
is_returned called = false
is_returned stamped = false
is_returned appended = false
is_returned returned = true
is_returned (failed why) = false

-- No call is named twice.
abbrev pub unique : List ℕ → Bool
unique [] = true
unique (i ∷ order) = not (member i order) && unique order

-- The messages that calls have now, in the order of a list of calls.
abbrev pub messages_of : Race → List ℕ → List Message
messages_of r order = map (λ i. (r.calls i).msg) order

-- The next turn of a call at this point is its last.
abbrev is_last : Point → Bool
is_last called = false
is_last stamped = false
is_last appended = true
is_last returned = false
is_last (failed why) = false

-- What a call adds to the live stream in its last turn.
abbrev fanned : World → Message → List Message
fanned w m = select w.live_publish (m ∷ [])

advance-live :
    (w : World) (o : Owner) (m : Message) (p : Point)
    → ((advance w o m p).0.live ≡ (if is_last p then o.live ++ fanned w m else o.live))
      × (is_returned (advance w o m p).1.point ≡ (is_returned p || is_last p))
unfolding advance
advance-live w o m called = (refl, refl)
advance-live w o m stamped = elim (Option-cases (w.propose_log o.log (Log.append m)).1) [
  | inl fine ↦ (refl, rw fine refl)
  | inr (why, bad) ↦ (refl, rw bad refl)
]
advance-live w o m appended = elim (Bool-cases (w.live_publish m)) [
  | inl out ↦ rw out (refl, refl)
  | inr kept ↦ rw kept (sym (append-nil o.live), refl)
]
advance-live w o m returned = (refl, refl)
advance-live w o m (failed why) = (refl, refl)

turn-live :
    (w : World) (r : Race) (i : ℕ)
    → (turn w r i).owner.live ≡ (
        if is_last (r.calls i).point
        then r.owner.live ++ fanned w (r.calls i).msg
        else r.owner.live)
unfolding turn
turn-live w r i = (advance-live w r.owner (r.calls i).msg (r.calls i).point).0

turn-is_returned :
    (w : World) (r : Race) (i k : ℕ)
    → is_returned ((turn w r i).calls k).point
      ≡ (is_returned (r.calls k).point || (i == k && is_last (r.calls i).point))
unfolding turn
turn-is_returned w r i k = elim (Bool-cases (i == k)) [
  | inl e ↦
      let same : i ≡ k = ground arith in
      rw (turn, e)
        ((advance-live w r.owner (r.calls i).msg (r.calls i).point).1
          ∙ ap (λ j. is_returned (r.calls j).point || is_last (r.calls i).point) same)
  | inr e ↦ rw (turn, e) (ground arith)
]

run-is_returned :
    (w : World) (r : Race) (k : ℕ) (schedule : List ℕ)
    → is_returned (r.calls k).point ≡ true
    → is_returned ((run w r schedule).calls k).point ≡ true
run-is_returned w r k [] h = h
run-is_returned w r k (i ∷ schedule) h =
    run-is_returned w (turn w r i) k schedule (turn-is_returned w r i k ∙ rw h refl)

last_not_returned : (p : Point) → is_last p ≡ true → (is_returned p ≡ false) × (has_begun p ≡ true)
last_not_returned called h = absurd (cc)
last_not_returned stamped h = absurd (cc)
last_not_returned appended h = (refl, refl)
last_not_returned returned h = absurd (cc)
last_not_returned (failed why) h = absurd (cc)

-- What a schedule adds to the live stream: the messages of the calls that return in it, in some
-- order of these calls.
abbrev Added : World → Race → Race → List ℕ → Type 0
Added w r r' order =
    (unique order ≡ true)
    × ((k : ℕ)
        → member k order ≡ (is_returned (r'.calls k).point && not (is_returned (r.calls k).point)))
    × (r'.owner.live ≡ r.owner.live ++ select w.live_publish (messages_of r' order))

select-cons :
    (p : Message → Bool) (m : Message) (ms : List Message)
    → select p (m ∷ ms) ≡ select p (m ∷ []) ++ select p ms
select-cons p m ms = elim (Bool-cases (p m)) [ inl e ↦ rw e refl | inr e ↦ rw e refl ]

run-Added :
    (w : World) (r : Race) (schedule : List ℕ)
    → (order : List ℕ) × Added w r (run w r schedule) order
run-Added w r [] = (
  [],
  (
    refl,
    λ k. elim (Bool-cases (is_returned (r.calls k).point)) [
      | inl e ↦ rw e refl
      | inr e ↦ rw e refl
    ],
    sym (append-nil r.owner.live),
  ),
)
run-Added w r (i ∷ schedule) =
    let r' = run w (turn w r i) schedule in
    let (order, (once, who, live)) = run-Added w (turn w r i) schedule in
    elim (Bool-cases (is_last (r.calls i).point)) [
      | inr more ↦ (
        order,
        (
          once,
          λ k. let step = turn-is_returned w r i k in who k ∙ rw (step, more) (ground arith),
          live
              ∙ ap (λ l. l ++ select w.live_publish (messages_of r' order))
                  (turn-live w r i ∙ rw more refl),
        ),
      )
      | inl last ↦
          let (fresh, begun) = last_not_returned (r.calls i).point last in
          let kept = run_begun w r i (i ∷ schedule) begun in
          (
            i ∷ order,
            (
              ground (arith, who i, turn-is_returned w r i i, last, once),
              λ k. elim (Bool-cases (i == k)) [
                | inl e ↦
                    let same : i ≡ k = ground arith in
                    let returns =
                      run-is_returned w (turn w r i) i schedule
                        (turn-is_returned w r i i ∙ ground (arith, last)) in
                    subst
                      (λ j.
                        (i == j || member j order)
                        ≡ (is_returned (r'.calls j).point && not (is_returned (r.calls j).point)))
                      same (ground (arith, returns, fresh))
                | inr e ↦ rw e (who k ∙ rw (turn-is_returned w r i k, e) (ground arith))
              ],
              live
                  ∙ ap (λ l. l ++ select w.live_publish (messages_of r' order))
                      (turn-live w r i ∙ rw last refl)
                  ∙ append_assoc r.owner.live (fanned w (r.calls i).msg)
                      (select w.live_publish (messages_of r' order))
                  ∙ ap (◌++◌ r.owner.live) (
                      sym (select-cons w.live_publish (r.calls i).msg (messages_of r' order))
                      ∙ ap (λ m. select w.live_publish (m ∷ messages_of r' order)) (sym kept)),
            ),
          )
    ]

-- From a state in which no call of `append_and_fanout` has begun, however the calls take their
-- turns: the live stream is what it was, followed by the messages of the calls that have returned
-- a cursor, less those that the stream does not take, where each such call comes once and a call
-- that has not returned or has failed does not come.
pub fanout :
    (w : World) (r : Race) (schedule : List ℕ)
    → ((k : ℕ) → (r.calls k).point ≡ called)
    → let r' = run w r schedule in
      (order : List ℕ) × (unique order ≡ true)
      × ((k : ℕ) → member k order ≡ is_returned (r'.calls k).point)
      × (r'.owner.live ≡ r.owner.live ++ select w.live_publish (map (λ k. (r'.calls k).msg) order))
fanout w r schedule new =
    let (order, (once, who, live)) = run-Added w r schedule in
    (order, once, λ k. who k ∙ rw (new k) (ground arith), live)
