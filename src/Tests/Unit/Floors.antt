-- ===== src/Tests/Unit/Floors.antt =====
-- The tests of src/subscription.rs on the floor of a subscription, on acknowledgements and on the
-- registry.
use ce_pubsub.Prelude.{
  ℕ, ◌+◌, ◌≡◌, refl, Bool, true, false, not, ◌&&◌, ◌==◌, Option, none, some, List, [], ◌∷◌, length,
}
use ce_pubsub.Prelude.Order.{text_order}
use ce_pubsub.Prelude.Map.{lookup, has}
use ce_pubsub.Subscription.{
  SubRegistry, delete, ack, apply, default_policy, pending_acks, validate_policy,
  max_ack_deadline_secs,
}
use ce_pubsub.Subscription.Plan.{plan_lease}
use ce_pubsub.Subscription.Delivery.{cursors}
use ce_pubsub.Tests.Unit.{cursors_eq, leased_is, is_nil, is_ok}
use ce_pubsub.Tests.Unit.Leases.{name, reg_with, policy_of, lease, get, acks}

abbrev floor_skips_pruned_cursors : Bool
floor_skips_pruned_cursors = elim (plan_lease (reg_with default_policy) name 10 4 100 100) [
  | none ↦ false
  | some (op, out) ↦ cursors_eq (cursors out.leased) (5 ∷ 6 ∷ 7 ∷ 8 ∷ 9 ∷ 10 ∷ [])
]

floor_skips_pruned_cursors_passes : floor_skips_pruned_cursors ≡ true
unfolding plan_lease lookup apply ce_pubsub.Prelude.Map.insert ce_pubsub.Prelude.Order.text_cmp
    ce_pubsub.Subscription.Plan.idle ce_pubsub.Subscription.Plan.scanned
    ce_pubsub.Subscription.Plan.scan ce_pubsub.Subscription.Plan.start
    ce_pubsub.Prelude.Words.add_u64 ce_pubsub.Subscription.Plan.visit
    ce_pubsub.Subscription.Plan.skipped ce_pubsub.Subscription.Plan.exhausted
    ce_pubsub.Subscription.next_attempt ce_pubsub.Prelude.Words.add_u32
floor_skips_pruned_cursors_passes = refl

abbrev floor_bridges_retention_so_subscription_does_not_stall : Bool
floor_bridges_retention_so_subscription_does_not_stall =
    let r = reg_with default_policy in
    elim (plan_lease r name 5 3 100 10) [
      | none ↦ false
      | some (op, out) ↦
          let r1 = apply r op in
          let r2 = acks r1 (4 ∷ 5 ∷ []) in
          leased_is out.leased ((4, 1) ∷ (5, 1) ∷ [])
          && ((get r1).acked == 3 && (get r2).acked == 5)
    ]

floor_bridges_retention_so_subscription_does_not_stall_passes :
    floor_bridges_retention_so_subscription_does_not_stall ≡ true
unfolding plan_lease lookup apply ce_pubsub.Prelude.Map.insert ce_pubsub.Prelude.Order.text_cmp
    ce_pubsub.Subscription.Plan.idle ce_pubsub.Subscription.Plan.scanned
    ce_pubsub.Subscription.Plan.scan ce_pubsub.Subscription.Plan.start
    ce_pubsub.Prelude.Words.add_u64 ce_pubsub.Subscription.Plan.visit
    ce_pubsub.Subscription.Plan.skipped ce_pubsub.Subscription.Plan.exhausted
    ce_pubsub.Subscription.next_attempt ce_pubsub.Prelude.Words.add_u32 ce_pubsub.Prelude.Map.modify
    ce_pubsub.Subscription.commit_lease ce_pubsub.Subscription.raise_floor
    ce_pubsub.Subscription.grant_lease ce_pubsub.Subscription.Plan.new_floor
    ce_pubsub.Subscription.Plan.bridge ce_pubsub.Subscription.Plan.handled_after
    ce_pubsub.Subscription.ack_cursor ce_pubsub.Subscription.advance_acked
    ce_pubsub.Subscription.advance ce_pubsub.Prelude.Map.retain ce_pubsub.Subscription.fold_in
    ce_pubsub.Prelude.Map.remove
floor_bridges_retention_so_subscription_does_not_stall_passes = refl

abbrev delete_removes_subscription : Bool
delete_removes_subscription =
    let r = reg_with default_policy in
    let r1 = apply r (delete name) in
    length r.subs == 1 && (is_nil r1.subs && not (has name r1.subs))

delete_removes_subscription_passes : delete_removes_subscription ≡ true
unfolding apply ce_pubsub.Prelude.Map.insert ce_pubsub.Prelude.Map.remove
    ce_pubsub.Prelude.Order.text_cmp lookup
delete_removes_subscription_passes = refl

abbrev policy_validation : Bool
policy_validation =
    is_ok (validate_policy default_policy)
    && (not (is_ok (validate_policy (policy_of 0 1)))
        && not (is_ok (validate_policy (policy_of (max_ack_deadline_secs + 1) 1))))

policy_validation_passes : policy_validation ≡ true
unfolding validate_policy
policy_validation_passes = refl

abbrev out_of_order_ack_advances_floor_only_when_contiguous : Bool
out_of_order_ack_advances_floor_only_when_contiguous =
    let r = (lease (reg_with default_policy) 5 100 10).0 in
    let r1 = apply r (ack name 3) in
    let r2 = apply r1 (ack name 1) in
    let r3 = apply r2 (ack name 2) in
    (get r1).acked == 0
    && (cursors_eq (pending_acks (get r1)) (3 ∷ [])
        && ((get r2).acked == 1 && ((get r3).acked == 3 && is_nil (pending_acks (get r3)))))

out_of_order_ack_advances_floor_only_when_contiguous_passes :
    out_of_order_ack_advances_floor_only_when_contiguous ≡ true
unfolding lookup apply ce_pubsub.Prelude.Map.modify plan_lease ce_pubsub.Prelude.Map.insert
    ce_pubsub.Prelude.Order.text_cmp ce_pubsub.Subscription.Plan.idle
    ce_pubsub.Subscription.Plan.scanned ce_pubsub.Subscription.Plan.scan
    ce_pubsub.Subscription.Plan.start ce_pubsub.Prelude.Words.add_u64
    ce_pubsub.Subscription.Plan.visit ce_pubsub.Subscription.Plan.skipped
    ce_pubsub.Subscription.Plan.exhausted ce_pubsub.Subscription.next_attempt
    ce_pubsub.Prelude.Words.add_u32 ce_pubsub.Subscription.ack_cursor
    ce_pubsub.Subscription.advance_acked ce_pubsub.Subscription.advance
    ce_pubsub.Subscription.commit_lease ce_pubsub.Subscription.raise_floor
    ce_pubsub.Subscription.grant_lease ce_pubsub.Subscription.Plan.new_floor
    ce_pubsub.Subscription.Plan.bridge ce_pubsub.Subscription.Plan.handled_after pending_acks
    ce_pubsub.Subscription.fold_in ce_pubsub.Prelude.Map.remove
out_of_order_ack_advances_floor_only_when_contiguous_passes = refl

abbrev out_of_order_acked_cursor_is_not_redelivered : Bool
out_of_order_acked_cursor_is_not_redelivered =
    let r = (lease (reg_with (policy_of 1 0)) 3 100 10).0 in
    let out = (lease (apply r (ack name 2)) 3 200 10).1 in
    cursors_eq (cursors out.leased) (1 ∷ 3 ∷ [])

out_of_order_acked_cursor_is_not_redelivered_passes :
    out_of_order_acked_cursor_is_not_redelivered ≡ true
unfolding plan_lease lookup apply ce_pubsub.Prelude.Map.insert ce_pubsub.Prelude.Order.text_cmp
    ce_pubsub.Subscription.Plan.idle ce_pubsub.Subscription.Plan.scanned
    ce_pubsub.Subscription.Plan.scan ce_pubsub.Subscription.Plan.start
    ce_pubsub.Prelude.Words.add_u64 ce_pubsub.Subscription.Plan.visit
    ce_pubsub.Subscription.Plan.skipped ce_pubsub.Subscription.Plan.exhausted
    ce_pubsub.Subscription.next_attempt ce_pubsub.Prelude.Words.add_u32 ce_pubsub.Prelude.Map.modify
    ce_pubsub.Subscription.commit_lease ce_pubsub.Subscription.raise_floor
    ce_pubsub.Subscription.grant_lease ce_pubsub.Subscription.Plan.new_floor
    ce_pubsub.Subscription.Plan.bridge ce_pubsub.Subscription.Plan.handled_after
    ce_pubsub.Subscription.ack_cursor ce_pubsub.Subscription.advance_acked
    ce_pubsub.Subscription.advance ce_pubsub.Prelude.Map.retain ce_pubsub.Subscription.fold_in
    ce_pubsub.Prelude.Map.remove validate_policy ce_pubsub.Subscription.Plan.expiry
    ce_pubsub.Prelude.Words.saturating_add ce_pubsub.Subscription.nack_cursor
    ce_pubsub.Subscription.mark_dead
out_of_order_acked_cursor_is_not_redelivered_passes = refl

abbrev ack_is_idempotent : Bool
ack_is_idempotent =
    let r = (lease (reg_with default_policy) 2 100 10).0 in
    (get (acks r (1 ∷ 1 ∷ []))).acked == 1 && (get (acks r (1 ∷ 1 ∷ 1 ∷ []))).acked == 1

ack_is_idempotent_passes : ack_is_idempotent ≡ true
unfolding lookup apply ce_pubsub.Prelude.Map.modify plan_lease ce_pubsub.Prelude.Map.insert
    ce_pubsub.Prelude.Order.text_cmp ce_pubsub.Subscription.Plan.idle
    ce_pubsub.Subscription.Plan.scanned ce_pubsub.Subscription.Plan.scan
    ce_pubsub.Subscription.Plan.start ce_pubsub.Prelude.Words.add_u64
    ce_pubsub.Subscription.Plan.visit ce_pubsub.Subscription.Plan.skipped
    ce_pubsub.Subscription.Plan.exhausted ce_pubsub.Subscription.next_attempt
    ce_pubsub.Prelude.Words.add_u32 ce_pubsub.Subscription.ack_cursor
    ce_pubsub.Subscription.advance_acked ce_pubsub.Subscription.advance
    ce_pubsub.Subscription.commit_lease ce_pubsub.Subscription.raise_floor
    ce_pubsub.Subscription.grant_lease ce_pubsub.Subscription.Plan.new_floor
    ce_pubsub.Subscription.Plan.bridge ce_pubsub.Subscription.Plan.handled_after
    ce_pubsub.Subscription.fold_in ce_pubsub.Prelude.Map.remove
ack_is_idempotent_passes = refl
