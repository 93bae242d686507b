-- ===== src/Tests/Subscription.antt =====
-- A subscription over three published messages.
use ce_pubsub.Prelude.{
  ◌-◌, ◌≤◌, ◌≡◌, refl, true, false, ◌||◌, [], ◌∷◌, arith, member, if◌then◌else◌,
}
use ce_pubsub.Prelude.Words.{add_u64, saturating_add, add_u32}
use ce_pubsub.Prelude.Order.{codes, text_order, ℕ_order}
use ce_pubsub.Prelude.Map.{lookup, insert, modify, remove}
use ce_pubsub.Subscription.{
  SubscriptionState, SubRegistry, default_state, ack, apply, advance_acked, next_attempt,
  nack_cursor, ack_cursor, commit_lease, grant_lease, raise_floor, mark_dead, advance, fold_in,
}
use ce_pubsub.Subscription.Plan.{
  scanned, scan, start, visit, skipped, exhausted, leased_unexpired, expiry, bridge, handled_after,
  new_floor,
}
use ce_pubsub.Subscription.Handled.{handled}
use ce_pubsub.Subscription.Delivery.{cursors, InReach, Fits, leased_sound, scan_complete}
use ce_pubsub.Subscription.Commit.{lease_once, no_double_lease}
use ce_pubsub.Subscription.Progress.{redelivered, nack_redelivers}
use ce_pubsub.Subscription.Run.{run, step, ended, acks, nacks, run-handled, ack-not-leased}
use ce_pubsub.Subscription.Run.{leases}
use ce_pubsub.Subscription.Attempts.{counted, deliveries}
use ce_pubsub.Subscription.Attempts.Bound.{deliveries-bound}

abbrev fresh : SubscriptionState
fresh = default_state

scan_fresh : (scanned fresh 3 0 100 2).leased_out ≡ (1, 1) ∷ (2, 1) ∷ []
unfolding scanned scan start add_u64 visit skipped lookup exhausted next_attempt add_u32
scan_fresh = refl

abbrev fresh-Fits : Fits fresh 3 0
fresh-Fits = (omega arith, omega arith)

run-handled_example :
    handled (run fresh (acks 2 ∷ nacks 1 ∷ [])) 2
    ≡ (handled fresh 2 || ended fresh (acks 2 ∷ nacks 1 ∷ []) 2)
run-handled_example = run-handled fresh (acks 2 ∷ nacks 1 ∷ []) 2 (omega arith, (tt, tt))

-- Acknowledged out of order, with the floor still below.
acked_2 : run fresh (acks 2 ∷ nacks 2 ∷ []) ≡ record fresh { acked_set = (2, tt) ∷ [] }
unfolding run step ack_cursor nack_cursor advance_acked advance add_u64 insert lookup modify remove
acked_2 = refl

ack-not-leased_example :
    member 2 (cursors (scanned (run fresh (acks 2 ∷ nacks 2 ∷ [])) 3 0 100 2).leased_out) ≡ false
ack-not-leased_example =
    ack-not-leased fresh 2 (nacks 2 ∷ []) 3 0 100 2 (omega arith, (tt, tt))
      (rw acked_2 (omega arith, omega arith))

leased_sound_example :
    InReach fresh 3 0 2
    × (handled fresh 2 ≡ false)
    × (leased_unexpired fresh 100 2 ≡ false)
    × (exhausted fresh 2 ≡ false)
unfolding scanned scan start add_u64 visit skipped lookup exhausted next_attempt add_u32
leased_sound_example = leased_sound fresh 3 0 100 2 fresh-Fits 2 refl

scan_complete_example : member 3 (cursors (scanned fresh 3 0 100 9).leased_out) ≡ true
unfolding scanned scan start add_u64 visit skipped lookup exhausted next_attempt add_u32 handled
    leased_unexpired
scan_complete_example =
    scan_complete fresh 3 0 100 9 fresh-Fits 3 (omega arith) (omega arith, omega arith, omega arith)
      refl refl

-- The first two messages under a lease.
abbrev held : SubscriptionState
held = record fresh {
  leases =
      (1, record { cursor = 1; expires_at = 130; attempts = 1 })
      ∷ (2, record { cursor = 2; expires_at = 130; attempts = 1 })
      ∷ [];
  attempts = (1, 1) ∷ (2, 1) ∷ [];
}

lease_fresh : lease_once fresh 3 0 100 2 ≡ held
unfolding scanned scan start add_u64 visit skipped lookup exhausted next_attempt add_u32 lease_once
    commit_lease new_floor bridge handled_after expiry saturating_add grant_lease raise_floor insert
    remove mark_dead leased_unexpired advance_acked advance fold_in ce_pubsub.Subscription.Plan.idle
    ce_pubsub.Subscription.Commit.committed
lease_fresh = refl

no_double_lease_example :
    member 2 (cursors (scanned (lease_once fresh 3 0 100 2) 3 0 110 2).leased_out) ≡ false
unfolding scanned scan start add_u64 visit skipped lookup exhausted next_attempt add_u32 expiry
    saturating_add
no_double_lease_example =
    no_double_lease fresh 3 0 100 2 fresh-Fits 2 3 0 110 2 refl (omega arith)
      (rw lease_fresh (omega arith, omega arith))

redelivered_example :
    let s' = lease_once fresh 3 0 100 2 in
    let p' = scanned s' 3 0 1000 9 in
    (if exhausted s' 2 then member 2 p'.dead else member 2 (cursors p'.leased_out)) ≡ true
unfolding scanned scan start add_u64 visit skipped lookup exhausted next_attempt add_u32 lease_once
    commit_lease new_floor bridge handled_after expiry saturating_add grant_lease raise_floor insert
    remove mark_dead leased_unexpired advance_acked advance fold_in ce_pubsub.Subscription.Plan.idle
    ce_pubsub.Subscription.Commit.committed
redelivered_example =
    redelivered fresh 3 0 100 2 (omega arith) 2 3 0 1000 9 fresh-Fits (omega arith, omega arith)
      refl (omega arith) (omega arith) (omega arith) (omega arith)

nack_redelivers_example :
    let p = scanned (nack_cursor 2 held) 3 0 110 9 in
    (if exhausted held 2 then member 2 p.dead else member 2 (cursors p.leased_out)) ≡ true
unfolding scanned scan start add_u64 visit skipped lookup exhausted next_attempt add_u32 nack_cursor
    handled modify leased_unexpired
nack_redelivers_example =
    nack_redelivers held 2 3 0 110 9 (omega arith, omega arith)
      (omega arith, omega arith, omega arith) refl (omega arith)

abbrev registry : SubRegistry
registry = record { subs = (codes "s", fresh) ∷ [] }

-- Leased, given back and leased again.
deliveries-bound_example :
    deliveries fresh (leases 1 0 100 1 ∷ nacks 1 ∷ leases 1 0 101 1 ∷ []) 1 ≤ 5 - counted fresh 1
unfolding handled_after scanned scan start add_u64 visit skipped lookup exhausted next_attempt
    add_u32 step nack_cursor lease_once commit_lease raise_floor grant_lease new_floor bridge modify
    insert ce_pubsub.Subscription.Plan.idle ce_pubsub.Subscription.Commit.committed
deliveries-bound_example =
    deliveries-bound 5 fresh (leases 1 0 100 1 ∷ nacks 1 ∷ leases 1 0 101 1 ∷ []) 1 (omega arith)
      (omega arith, omega arith)
      (
        (omega arith, (omega arith, omega arith)),
        ((tt, tt), ((omega arith, (omega arith, omega arith)), tt)),
      )
      (omega arith)
