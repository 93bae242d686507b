-- ===== src/Client/Converge.antt =====
-- What a pull that says it converged has read.
use ce_pubsub.Prelude.{
  ℕ, zero, suc, ◌+◌, ◌≤◌, ◌<◌, ◌≡◌, refl, ap, ◌∙◌, true, Option, none, some, arith,
}
use ce_pubsub.Prelude.Order.{Text}
use ce_pubsub.Prelude.Result.{ok, >>=-eq-ok}
use ce_pubsub.Message.{Cursor, validate_topic}
use ce_pubsub.Log.{high_cursor}
use ce_pubsub.Client.{Replay, Reader, page, missing_after, await_target, converge_to, pull_limited}

-- What the replica does: it never loses what it has replayed.
pub record Grows (r : Reader) : Type 0 where
  pub grows : (i j : ℕ) → i ≤ j → high_cursor (r.log i) ≤ high_cursor (r.log j)

await_target-reached :
    (fuel : ℕ) (r : Reader) (t i : ℕ)
    → Grows r
    → (await_target fuel r t i).0 ≡ true
    → t ≤ high_cursor (r.log (await_target fuel r t i).1)
unfolding await_target
await_target-reached zero r t i g h = absurd (cc)
await_target-reached (suc fuel) r t i g h =
    let one = g.grows i (i + 1) (omega arith) in
    let two = g.grows (i + 1) (i + 2) (omega arith) in
    ground (arith, await_target-reached fuel r t (i + 1) g, one, two, h)

-- Once the deadline passes at some read, any two bounds on the rounds beyond that read give the
-- same end of the wait for a target.
await_target-enough :
    (n m : ℕ) (r : Reader) (t i k : ℕ)
    → r.late (i + k) ≡ true
    → k < n
    → k < m
    → await_target n r t i ≡ await_target m r t i
unfolding await_target
await_target-enough zero m r t i k late ln lm = absurd (omega (arith, ln))
await_target-enough (suc n) zero r t i k late ln lm = absurd (omega (arith, lm))
await_target-enough (suc n) (suc m) r t i zero late ln lm =
    let now : r.late i ≡ true = ap r.late (omega arith) ∙ late in ground (arith, now)
await_target-enough (suc n) (suc m) r t i (suc k) late ln lm =
    let later : r.late (i + 1 + k) ≡ true = ap r.late (omega arith) ∙ late in
    ground
      (arith, await_target-enough n m r t (i + 1) k later (omega (arith, ln)) (omega (arith, lm)))

-- If the replica never loses what it has replayed, a pull that returns a page marked as converged
-- had the owner's high cursor, has replayed up to it, and misses nothing.
pub pull_limited-converged :
    (fuel : ℕ) (r : Reader) (topic : Text) (target : Option Cursor) (from limit : ℕ) (p : Replay)
    → Grows r
    → pull_limited fuel r topic target from limit ≡ ok p
    → p.converged ≡ true
    → (t : Cursor) × (target ≡ some t) × (t ≤ p.high) × (p.missing ≡ 0)
unfolding pull_limited page converge_to missing_after
pull_limited-converged fuel r topic none from limit p g h c =
    let (_, _, e) = >>=-eq-ok (validate_topic topic) _ h in absurd (ground (arith, e))
pull_limited-converged fuel r topic (some t) from limit p g h c =
    let (_, _, e) = >>=-eq-ok (validate_topic topic) _ h in
    let reached = await_target-reached fuel r t 0 g in
    (t, refl, ground (arith, e, reached), ground (arith, e, reached))
