-- ===== src/Owner/Race/Overtaken.antt =====
-- Overlapping publishes: two calls that read the next cursor before either appends.
use ce_pubsub.Prelude.{
  ℕ, ◌+◌, ◌<◌, ◌≡◌, ◌≢◌, refl, ap, sym, ◌∙◌, Option, none, some, List, [], ◌∷◌, arith, ◌==◌, Bool,
  true, false, length, Bool-cases, Option-cases, inl, inr,
}
use ce_pubsub.Prelude.Words.{u64_mod}
use ce_pubsub.Prelude.Result.{Result, ok, err}
use ce_pubsub.Message.{Cursor, Message}
use ce_pubsub.Log
use ce_pubsub.Log.Invariant.{IsWellFormed}
use ce_pubsub.Owner.{Owner, World, Refusal, Applies, append_failed}
use ce_pubsub.Owner.Sound.{reach, StepsLog}
use ce_pubsub.Owner.Race.{
  Point, called, stamped, appended, returned, failed, Call, Race, advance, turn, run,
}
use ce_pubsub.Owner.Race.Landing.{has_appended}
use ce_pubsub.Owner.Race.Turns.{run_lands}

-- What a call has returned, if it has.
unfoldable pub outcome : Call → Option (Result Refusal Cursor)
outcome c = elim c.point [
  | returned ↦ some (ok c.msg.cursor)
  | failed why ↦ some (err (append_failed why))
  | _ ↦ none
]

abbrev pub has_begun : Point → Bool
has_begun called = false
has_begun stamped = true
has_begun appended = true
has_begun returned = true
has_begun (failed why) = true

-- The owner, and where call `i` stands.
abbrev pub At : Race → ℕ → Owner → Call → Type 0
At r i o c = (r.owner ≡ o) × (r.calls i ≡ c)

pub turn-At :
    (w : World) (r : Race) (i : ℕ) {o o' : Owner} {c c' : Call}
    → At r i o c
    → advance w o c.msg c.point ≡ (o', c')
    → At (turn w r i) i o' c'
unfolding turn
turn-At w r i (owner, here) next =
    let itself : (i == i) ≡ true = ground arith in
    (
      rw (turn, owner, here) (ap (λ (x : Owner × Call). x.0) next),
      rw (turn, itself, owner, here) (ap (λ (x : Owner × Call). x.1) next),
    )

advance_begun :
    (w : World) (o : Owner) (m : Message) (p : Point)
    → has_begun p ≡ true
    → ((advance w o m p).1.msg ≡ m) × (has_begun (advance w o m p).1.point ≡ true)
unfolding advance
advance_begun w o m called h = absurd (cc)
advance_begun w o m stamped h = elim (Option-cases (w.propose_log o.log (Log.append m)).1) [
  | inl fine ↦ rw fine (refl, refl)
  | inr (why, bad) ↦ rw bad (refl, refl)
]
advance_begun w o m appended h = (refl, refl)
advance_begun w o m returned h = (refl, refl)
advance_begun w o m (failed why) h = (refl, refl)

-- A call that has read its cursor keeps its message.
pub run_begun :
    (w : World) (r : Race) (i : ℕ) (schedule : List ℕ)
    → has_begun (r.calls i).point ≡ true
    → ((run w r schedule).calls i).msg ≡ (r.calls i).msg
unfolding turn
run_begun w r i [] h = refl
run_begun w r i (k ∷ schedule) h = elim (Bool-cases (k == i)) [
  | inl e ↦
      let same : k ≡ i = ground arith in
      let (msg, begun) = advance_begun w r.owner (r.calls k).msg (r.calls k).point (rw same h) in
      run_begun w (turn w r k) i schedule (rw (turn, e) begun)
      ∙ rw (turn, e, msg) (ap (λ n. (r.calls n).msg) same)
  | inr e ↦ run_begun w (turn w r k) i schedule (rw (turn, e) h) ∙ rw (turn, e) refl
]

pub outcome-eq-ok :
    (m : Message) (p : Point) (c : Cursor)
    → outcome (record { msg = m; point = p }) ≡ some (ok c)
    → (m.cursor ≡ c) × (has_appended p ≡ true)
unfolding outcome
outcome-eq-ok m called c h = absurd (cc)
outcome-eq-ok m stamped c h = absurd (cc)
outcome-eq-ok m appended c h = absurd (cc)
outcome-eq-ok m returned c h = (cc, refl)
outcome-eq-ok m (failed why) c h = absurd (cc)

turn_other : (w : World) (r : Race) (i j : ℕ) → (j == i) ≡ false → (turn w r j).calls i ≡ r.calls i
unfolding turn
turn_other w r i j e = rw (turn, e) refl

abbrev stamp : Owner → Message → Call
stamp o m = record { msg = record m { cursor = Log.next_cursor o.log }; point = stamped }

-- Both have read the same cursor once each has had one turn.
read_both :
    (w : World) (r : Race) (i j : ℕ)
    → (r.calls i).point ≡ called
    → (r.calls j).point ≡ called
    → i ≢ j
    → let r2 = turn w (turn w r i) j in
      (r2.calls i ≡ stamp r.owner (r.calls i).msg) × (r2.calls j ≡ stamp r.owner (r.calls j).msg)
unfolding advance
read_both w r i j ai aj apart =
    let ji : (j == i) ≡ false = ground arith in
    let ij : (i == j) ≡ false = ground arith in
    let (owner, first) =
      turn-At w r i (refl, λ k. record { msg = (r.calls i).msg; point = ai k }) refl in
    let (_, second) =
      turn-At w (turn w r i) j
        (owner, turn_other w r j i ij ∙ (λ k. record { msg = (r.calls j).msg; point = aj k }))
        refl in
    (turn_other w (turn w r i) i j ji ∙ first, second)

-- Two calls of `append_and_fanout` that both take their first turn before either takes its
-- second, and that both return a cursor, whatever follows, return the same one, though their
-- messages lie in the log at two different cursors: one of the two is the cursor of another
-- message. The log is well formed with a cursor left for each turn, no call has begun, a proposal
-- applies its operation or changes nothing, and one without an error is applied.
pub overtaken :
    (w : World) (r : Race) (schedule : List ℕ) (i j : ℕ) (c d : Cursor)
    → Applies w
    → StepsLog w
    → IsWellFormed r.owner.log
    → reach r.owner.log + length (i ∷ j ∷ schedule) < u64_mod
    → ((n : ℕ) → (r.calls n).point ≡ called)
    → i ≢ j
    → let r' = run w r (i ∷ j ∷ schedule) in
      outcome (r'.calls i) ≡ some (ok c)
      → outcome (r'.calls j) ≡ some (ok d)
      → (c ≡ Log.next_cursor r.owner.log)
        × (d ≡ Log.next_cursor r.owner.log)
        × (a b : Cursor) × (Log.get r'.owner.log a ≡ some (record (r.calls i).msg { cursor = a }))
        × (Log.get r'.owner.log b ≡ some (record (r.calls j).msg { cursor = b }))
        × (a ≢ b)
overtaken w r schedule i j c d applies steps v room new apart hi hj =
    let r2 = turn w (turn w r i) j in
    let r' = run w r2 schedule in
    let (ri, rj) = read_both w r i j (new i) (new j) apart in
    let (ci, ai) = outcome-eq-ok (r'.calls i).msg (r'.calls i).point c hi in
    let (dj, aj) = outcome-eq-ok (r'.calls j).msg (r'.calls j).point d hj in
    let mi = run_begun w r2 i schedule (rw ri refl) in
    let mj = run_begun w r2 j schedule (rw rj refl) in
    let (a, b, (at_a, _, _, _), (at_b, _, _, _), differ, _) =
      run_lands w r (i ∷ j ∷ schedule) i j applies steps v room new ai aj in
    (
      sym ci ∙ ap (λ (m : Message). m.cursor) mi ∙ ap (λ (x : Call). x.msg.cursor) ri,
      sym dj ∙ ap (λ (m : Message). m.cursor) mj ∙ ap (λ (x : Call). x.msg.cursor) rj,
      a,
      b,
      at_a,
      at_b,
      elim differ [ inl same ↦ absurd (apart same) | inr far ↦ far ],
    )
