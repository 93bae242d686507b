-- ===== src/Tests/Unit/Leases.antt =====
-- The tests of src/subscription.rs on leases, redelivery and the dead letters.
use ce_pubsub.Prelude.{
  ℕ, zero, suc, ◌+◌, ◌≡◌, refl, Bool, true, not, ◌&&◌, ◌==◌, ltb, Option, none, some, List, [], ◌∷◌,
  map, length,
}
use ce_pubsub.Prelude.Order.{Text, codes, text_order}
use ce_pubsub.Prelude.Map.{lookup}
use ce_pubsub.Message.{Cursor}
use ce_pubsub.Subscription.{
  SubRegistry, SubscriptionPolicy, SubscriptionState, SubOp, LeaseOutcome, create, delete, ack,
  nack, apply, default_policy, default_state, outstanding, dead_lettered, pending_acks,
  validate_policy, max_ack_deadline_secs,
}
use ce_pubsub.Subscription.Plan.{plan_lease}
use ce_pubsub.Subscription.Delivery.{cursors}
use ce_pubsub.Tests.Unit.{cursors_eq, leased_is, is_nil}

abbrev pub empty_registry : SubRegistry
empty_registry = record { subs = [] }

abbrev pub name : Text
name = codes "s"

abbrev pub reg_with : SubscriptionPolicy → SubRegistry
reg_with policy = apply empty_registry (create name policy)

abbrev pub policy_of : ℕ → ℕ → SubscriptionPolicy
policy_of deadline attempts = record {
  ack_deadline_secs = deadline;
  max_delivery_attempts = attempts;
}

-- The helper `lease`: the registry afterwards, and the outcome.
abbrev pub lease : SubRegistry → Cursor → ℕ → ℕ → SubRegistry × LeaseOutcome
lease reg high now max = elim (plan_lease reg name high 0 now max) [
  | some (op, out) ↦ (apply reg op, out)
  | none ↦ (reg, record { leased = []; dead_lettered = [] })
]

-- `r.get("s").unwrap()`, where an unwrap that fails shows a state that no test expects.
abbrev pub get : SubRegistry → SubscriptionState
get r = elim (lookup name r.subs) [ some s ↦ s | none ↦ record default_state { acked = 1_000_000 } ]

abbrev pub acks : SubRegistry → List Cursor → SubRegistry
acks r [] = r
acks r (c ∷ cs) = acks (apply r (ack name c)) cs

abbrev create_is_idempotent_and_preserves_progress : Bool
create_is_idempotent_and_preserves_progress =
    let r1 = (lease (reg_with default_policy) 3 100 10).0 in
    let r2 = apply r1 (ack name 1) in
    let r3 = apply r2 (create name (policy_of 60 3)) in
    (get r2).acked == 1 && ((get r3).acked == 1 && (get r3).policy.ack_deadline_secs == 60)

create_is_idempotent_and_preserves_progress_passes :
    create_is_idempotent_and_preserves_progress ≡ true
unfolding lookup apply ce_pubsub.Prelude.Map.modify plan_lease ce_pubsub.Prelude.Map.insert
    ce_pubsub.Prelude.Order.text_cmp ce_pubsub.Subscription.Plan.idle
    ce_pubsub.Subscription.Plan.scanned ce_pubsub.Subscription.Plan.scan
    ce_pubsub.Subscription.Plan.start ce_pubsub.Prelude.Words.add_u64
    ce_pubsub.Subscription.Plan.visit ce_pubsub.Subscription.Plan.skipped
    ce_pubsub.Subscription.Plan.exhausted ce_pubsub.Subscription.next_attempt
    ce_pubsub.Prelude.Words.add_u32 ce_pubsub.Subscription.ack_cursor
    ce_pubsub.Subscription.advance_acked ce_pubsub.Subscription.advance
    ce_pubsub.Subscription.commit_lease ce_pubsub.Subscription.raise_floor
    ce_pubsub.Subscription.grant_lease ce_pubsub.Subscription.Plan.new_floor
    ce_pubsub.Subscription.Plan.bridge ce_pubsub.Subscription.Plan.handled_after
    ce_pubsub.Subscription.fold_in ce_pubsub.Prelude.Map.remove
create_is_idempotent_and_preserves_progress_passes = refl

abbrev lease_then_ack_advances_floor : Bool
lease_then_ack_advances_floor =
    let (r1, out) = lease (reg_with default_policy) 5 100 10 in
    let (r2, again) = lease r1 5 100 10 in
    let r3 = acks r2 (1 ∷ 2 ∷ 3 ∷ 4 ∷ 5 ∷ []) in
    cursors_eq (cursors out.leased) (1 ∷ 2 ∷ 3 ∷ 4 ∷ 5 ∷ [])
    && (is_nil out.dead_lettered
        && (is_nil again.leased && ((get r3).acked == 5 && outstanding (get r3) == 0)))

lease_then_ack_advances_floor_passes : lease_then_ack_advances_floor ≡ true
unfolding plan_lease lookup apply ce_pubsub.Prelude.Map.insert ce_pubsub.Prelude.Order.text_cmp
    ce_pubsub.Subscription.Plan.idle ce_pubsub.Subscription.Plan.scanned
    ce_pubsub.Subscription.Plan.scan ce_pubsub.Subscription.Plan.start
    ce_pubsub.Prelude.Words.add_u64 ce_pubsub.Subscription.Plan.visit
    ce_pubsub.Subscription.Plan.skipped ce_pubsub.Subscription.Plan.exhausted
    ce_pubsub.Subscription.next_attempt ce_pubsub.Prelude.Words.add_u32 ce_pubsub.Prelude.Map.modify
    ce_pubsub.Subscription.commit_lease ce_pubsub.Subscription.raise_floor
    ce_pubsub.Subscription.grant_lease ce_pubsub.Subscription.Plan.new_floor
    ce_pubsub.Subscription.Plan.bridge ce_pubsub.Subscription.Plan.handled_after
    ce_pubsub.Subscription.Plan.expiry ce_pubsub.Prelude.Words.saturating_add
    ce_pubsub.Subscription.ack_cursor ce_pubsub.Subscription.advance_acked
    ce_pubsub.Subscription.advance ce_pubsub.Subscription.fold_in ce_pubsub.Prelude.Map.remove
    outstanding
lease_then_ack_advances_floor_passes = refl

abbrev expired_lease_is_redelivered_with_incremented_attempt : Bool
expired_lease_is_redelivered_with_incremented_attempt =
    let (r1, first) = lease (reg_with (policy_of 30 5)) 2 100 10 in
    let (r2, early) = lease r1 2 120 10 in
    let (r3, second) = lease r2 2 200 10 in
    leased_is first.leased ((1, 1) ∷ (2, 1) ∷ [])
    && (is_nil early.leased && leased_is second.leased ((1, 2) ∷ (2, 2) ∷ []))

expired_lease_is_redelivered_with_incremented_attempt_passes :
    expired_lease_is_redelivered_with_incremented_attempt ≡ true
unfolding plan_lease lookup apply ce_pubsub.Prelude.Map.insert ce_pubsub.Prelude.Order.text_cmp
    ce_pubsub.Subscription.Plan.idle ce_pubsub.Subscription.Plan.scanned
    ce_pubsub.Subscription.Plan.scan ce_pubsub.Subscription.Plan.start
    ce_pubsub.Prelude.Words.add_u64 ce_pubsub.Subscription.Plan.visit
    ce_pubsub.Subscription.Plan.skipped ce_pubsub.Subscription.Plan.exhausted
    ce_pubsub.Subscription.next_attempt ce_pubsub.Prelude.Words.add_u32 ce_pubsub.Prelude.Map.modify
    ce_pubsub.Subscription.commit_lease ce_pubsub.Subscription.raise_floor
    ce_pubsub.Subscription.grant_lease ce_pubsub.Subscription.Plan.new_floor
    ce_pubsub.Subscription.Plan.bridge ce_pubsub.Subscription.Plan.handled_after
    ce_pubsub.Subscription.Plan.expiry ce_pubsub.Prelude.Words.saturating_add
expired_lease_is_redelivered_with_incremented_attempt_passes = refl

abbrev nack_makes_redeliverable_immediately : Bool
nack_makes_redeliverable_immediately =
    let r1 = (lease (reg_with default_policy) 1 100 10).0 in
    let (r2, out) = lease (apply r1 (nack name 1)) 1 100 10 in leased_is out.leased ((1, 2) ∷ [])

nack_makes_redeliverable_immediately_passes : nack_makes_redeliverable_immediately ≡ true
unfolding plan_lease lookup apply ce_pubsub.Prelude.Map.modify ce_pubsub.Prelude.Map.insert
    ce_pubsub.Prelude.Order.text_cmp ce_pubsub.Subscription.Plan.idle
    ce_pubsub.Subscription.Plan.scanned ce_pubsub.Subscription.Plan.scan
    ce_pubsub.Subscription.Plan.start ce_pubsub.Prelude.Words.add_u64
    ce_pubsub.Subscription.Plan.visit ce_pubsub.Subscription.Plan.skipped
    ce_pubsub.Subscription.Plan.exhausted ce_pubsub.Subscription.next_attempt
    ce_pubsub.Prelude.Words.add_u32 ce_pubsub.Subscription.nack_cursor
    ce_pubsub.Subscription.commit_lease ce_pubsub.Subscription.raise_floor
    ce_pubsub.Subscription.grant_lease ce_pubsub.Subscription.Plan.new_floor
    ce_pubsub.Subscription.Plan.bridge ce_pubsub.Subscription.Plan.handled_after
nack_makes_redeliverable_immediately_passes = refl

abbrev poison_message_is_dead_lettered_and_floor_advances : Bool
poison_message_is_dead_lettered_and_floor_advances =
    let (r1, out1) = lease (reg_with (policy_of 1 3)) 1 100 10 in
    let (r2, out2) = lease r1 1 110 10 in
    let (r3, out3) = lease r2 1 120 10 in
    let (r4, dl) = lease r3 1 130 10 in
    (length out1.leased == 1 && is_nil out1.dead_lettered)
    && ((length out2.leased == 1 && is_nil out2.dead_lettered)
        && ((length out3.leased == 1 && is_nil out3.dead_lettered)
            && (is_nil dl.leased
                && (cursors_eq dl.dead_lettered (1 ∷ [])
                    && ((get r4).acked == 1 && is_nil (dead_lettered (get r4)))))))

poison_message_is_dead_lettered_and_floor_advances_passes :
    poison_message_is_dead_lettered_and_floor_advances ≡ true
unfolding plan_lease lookup apply ce_pubsub.Prelude.Map.insert ce_pubsub.Prelude.Order.text_cmp
    ce_pubsub.Subscription.Plan.idle ce_pubsub.Subscription.Plan.scanned
    ce_pubsub.Subscription.Plan.scan ce_pubsub.Subscription.Plan.start
    ce_pubsub.Prelude.Words.add_u64 ce_pubsub.Subscription.Plan.visit
    ce_pubsub.Subscription.Plan.skipped ce_pubsub.Subscription.Plan.exhausted
    ce_pubsub.Subscription.next_attempt ce_pubsub.Prelude.Words.add_u32 ce_pubsub.Prelude.Map.modify
    ce_pubsub.Subscription.commit_lease ce_pubsub.Subscription.raise_floor
    ce_pubsub.Subscription.grant_lease ce_pubsub.Subscription.Plan.new_floor
    ce_pubsub.Subscription.Plan.bridge ce_pubsub.Subscription.Plan.handled_after
    ce_pubsub.Subscription.Plan.expiry ce_pubsub.Prelude.Words.saturating_add
    ce_pubsub.Subscription.mark_dead dead_lettered ce_pubsub.Prelude.Map.retain
poison_message_is_dead_lettered_and_floor_advances_passes = refl

abbrev dead_letter_does_not_stall_following_messages : Bool
dead_letter_does_not_stall_following_messages =
    let (r1, first) = lease (reg_with (policy_of 1 1)) 3 100 10 in
    let (r2, dl) = lease r1 3 110 10 in
    let (r3, next) = lease r2 4 110 10 in
    length first.leased == 3
    && (cursors_eq dl.dead_lettered (1 ∷ 2 ∷ 3 ∷ [])
        && ((get r2).acked == 3 && leased_is next.leased ((4, 1) ∷ [])))

dead_letter_does_not_stall_following_messages_passes :
    dead_letter_does_not_stall_following_messages ≡ true
unfolding plan_lease lookup apply ce_pubsub.Prelude.Map.insert ce_pubsub.Prelude.Order.text_cmp
    ce_pubsub.Subscription.Plan.idle ce_pubsub.Subscription.Plan.scanned
    ce_pubsub.Subscription.Plan.scan ce_pubsub.Subscription.Plan.start
    ce_pubsub.Prelude.Words.add_u64 ce_pubsub.Subscription.Plan.visit
    ce_pubsub.Subscription.Plan.skipped ce_pubsub.Subscription.Plan.exhausted
    ce_pubsub.Subscription.next_attempt ce_pubsub.Prelude.Words.add_u32 ce_pubsub.Prelude.Map.modify
    ce_pubsub.Subscription.commit_lease ce_pubsub.Subscription.raise_floor
    ce_pubsub.Subscription.grant_lease ce_pubsub.Subscription.Plan.new_floor
    ce_pubsub.Subscription.Plan.bridge ce_pubsub.Subscription.Plan.handled_after
    ce_pubsub.Subscription.Plan.expiry ce_pubsub.Prelude.Words.saturating_add
    ce_pubsub.Subscription.mark_dead ce_pubsub.Prelude.Map.remove ce_pubsub.Prelude.Map.retain
dead_letter_does_not_stall_following_messages_passes = refl

-- The twenty rounds of the loop.
abbrev never_dead : ℕ → SubRegistry → ℕ → Bool
never_dead zero r now = true
never_dead (suc rounds) r now =
    let (r', out) = lease r 1 now 10 in is_nil out.dead_lettered && never_dead rounds r' (now + 10)

abbrev zero_max_attempts_never_dead_letters : Bool
zero_max_attempts_never_dead_letters = never_dead 20 (reg_with (policy_of 1 0)) 100

zero_max_attempts_never_dead_letters_passes : zero_max_attempts_never_dead_letters ≡ true
unfolding plan_lease lookup apply ce_pubsub.Prelude.Map.insert ce_pubsub.Prelude.Order.text_cmp
    ce_pubsub.Subscription.Plan.idle ce_pubsub.Subscription.Plan.scanned
    ce_pubsub.Subscription.Plan.scan ce_pubsub.Subscription.Plan.start
    ce_pubsub.Prelude.Words.add_u64 ce_pubsub.Subscription.Plan.visit
    ce_pubsub.Subscription.Plan.skipped ce_pubsub.Subscription.Plan.exhausted
    ce_pubsub.Prelude.Map.modify ce_pubsub.Subscription.commit_lease
    ce_pubsub.Subscription.raise_floor ce_pubsub.Subscription.grant_lease
    ce_pubsub.Subscription.Plan.new_floor ce_pubsub.Subscription.Plan.bridge
    ce_pubsub.Subscription.Plan.handled_after ce_pubsub.Subscription.Plan.expiry
    ce_pubsub.Prelude.Words.saturating_add
zero_max_attempts_never_dead_letters_passes = refl
