-- ===== src/Tests/Drain.antt =====
-- A consumer that empties a subscription of three messages in two rounds of two; where the floor
-- stands; a message that goes to the dead letters.
use ce_pubsub.Prelude.{◌≡◌, ◌≤◌, ◌<◌, ◌↔◌, ◌||◌, refl, true, List, [], ◌∷◌, arith, ℕ}
use ce_pubsub.Subscription.{SubscriptionState, default_state}
use ce_pubsub.Subscription.Commit.{lease_once}
use ce_pubsub.Subscription.Floor.{floor_exact}
use ce_pubsub.Subscription.Attempts.{deliveries}
use ce_pubsub.Subscription.Attempts.Dead.{dead_letterings, dead_letter_lem}
use ce_pubsub.Subscription.Handled.{handled}
use ce_pubsub.Subscription.Run.{run, ended, leases, acks}
use ce_pubsub.Subscription.Drain.{rounds}
use ce_pubsub.Subscription.Drain.Drained.{drained}

drained_example :
    handled (run default_state (rounds default_state 3 0 2 (100 ∷ 101 ∷ 102 ∷ []))) 3 ≡ true
unfolding ce_pubsub.Subscription.Plan.leased_unexpired ce_pubsub.Prelude.Map.lookup
    ce_pubsub.Subscription.Plan.handled_after ce_pubsub.Subscription.Plan.scanned
    ce_pubsub.Subscription.Plan.scan ce_pubsub.Subscription.Plan.start
    ce_pubsub.Prelude.Words.add_u64 ce_pubsub.Subscription.Plan.visit
    ce_pubsub.Subscription.Plan.skipped ce_pubsub.Subscription.Plan.exhausted
    ce_pubsub.Subscription.next_attempt ce_pubsub.Prelude.Words.add_u32
    ce_pubsub.Subscription.Run.step ce_pubsub.Subscription.Commit.lease_once
    ce_pubsub.Subscription.commit_lease ce_pubsub.Subscription.raise_floor
    ce_pubsub.Subscription.grant_lease ce_pubsub.Subscription.Plan.new_floor
    ce_pubsub.Subscription.Plan.bridge ce_pubsub.Subscription.ack_cursor
    ce_pubsub.Subscription.advance_acked ce_pubsub.Subscription.advance ce_pubsub.Prelude.Map.insert
    ce_pubsub.Subscription.fold_in ce_pubsub.Prelude.Map.remove run ce_pubsub.Subscription.Plan.idle
    ce_pubsub.Subscription.Commit.committed
drained_example =
    drained default_state 3 0 2 100 (100 ∷ 101 ∷ 102 ∷ []) 3 (omega arith) (omega arith)
      (λ c h. refl) (omega arith, (omega arith, (omega arith, tt)))
      (omega arith, (omega arith, (omega arith, (omega arith, (omega arith, (omega arith, tt))))))
      (omega arith) (omega arith) (omega arith)

-- The first three of four cursors are acknowledged, out of order.
floor_exact_example :
    let s' = run default_state (acks 3 ∷ acks 1 ∷ acks 2 ∷ []) in
    (3 ≤ s'.acked) ↔ (
      (k : ℕ)
      → k ≤ 3
      → (handled default_state k || ended default_state (acks 3 ∷ acks 1 ∷ acks 2 ∷ []) k) ≡ true)
unfolding ce_pubsub.Subscription.Run.step ce_pubsub.Subscription.ack_cursor
    ce_pubsub.Subscription.advance_acked ce_pubsub.Subscription.advance ce_pubsub.Prelude.Map.lookup
    ce_pubsub.Prelude.Map.insert ce_pubsub.Prelude.Words.add_u64 ce_pubsub.Subscription.fold_in
    ce_pubsub.Prelude.Map.remove handled
floor_exact_example =
    floor_exact default_state (acks 3 ∷ acks 1 ∷ acks 2 ∷ []) 3
      (omega arith, (omega arith, (omega arith, tt))) refl

-- At most one delivery is allowed.
abbrev once : SubscriptionState
once = record default_state { policy = record { ack_deadline_secs = 1; max_delivery_attempts = 1 } }

dead_letter_lem_example :
    let es = leases 1 0 100 5 ∷ [] in
    let s' = run once es in
    (0 < 1)
    × (1 ≤ deliveries once es 1)
    × (dead_letterings once es 1 ≡ 0)
    × (handled (lease_once s' 1 0 200 5) 1 ≡ true)
unfolding ce_pubsub.Subscription.Plan.handled_after ce_pubsub.Subscription.Plan.scanned
    ce_pubsub.Subscription.Plan.scan ce_pubsub.Subscription.Plan.start
    ce_pubsub.Prelude.Words.add_u64 ce_pubsub.Subscription.Plan.visit
    ce_pubsub.Subscription.Plan.skipped ce_pubsub.Prelude.Map.lookup
    ce_pubsub.Subscription.Plan.exhausted ce_pubsub.Subscription.next_attempt
    ce_pubsub.Prelude.Words.add_u32 run ce_pubsub.Subscription.Run.step lease_once
    ce_pubsub.Subscription.Plan.idle ce_pubsub.Subscription.Commit.committed
    ce_pubsub.Subscription.commit_lease ce_pubsub.Subscription.raise_floor
    ce_pubsub.Subscription.grant_lease ce_pubsub.Subscription.Plan.new_floor
    ce_pubsub.Subscription.Plan.bridge ce_pubsub.Prelude.Map.insert
    ce_pubsub.Subscription.Plan.expiry ce_pubsub.Prelude.Words.saturating_add
dead_letter_lem_example =
    dead_letter_lem 1 once (leases 1 0 100 5 ∷ []) 1 1 0 200 5
      ((omega arith, (omega arith, omega arith)), tt) refl (omega arith, omega arith) (omega arith)
      refl
