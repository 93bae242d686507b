-- ===== src/Subscription/Registry.antt =====
-- The registry: what an operation does to the subscription it names, and to the others.
use ce_pubsub.Prelude.{
  ℕ, suc, ◌≤◌, ◌<◌, ◌≡◌, refl, ap, ◌∙◌, inl, inr, Bool, true, false, ◌||◌, Option, none, some, List,
  [], ◌∷◌, arith, if◌then◌else◌, length, select, range, map, member, Bool-cases, Option-cases, max,
  min,
}
use mathlib.Core.Option
use ce_pubsub.Prelude.Order.{Text, same, same_refl, same_eq, text_order}
use ce_pubsub.Prelude.Map.{
  lookup, modify, lookup-insert, lookup-remove, lookup-modify, length-insert, length-modify,
  length-remove-le,
}
use ce_pubsub.Prelude.Map.Sorted.{
  IsSorted, insert-IsSorted, remove-IsSorted, modify-IsSorted, length-insert_present,
}
use ce_pubsub.Message.{Cursor}
use ce_pubsub.Subscription.{
  SubscriptionState, SubRegistry, SubOp, LeaseOutcome, create, delete, apply_lease, ack, nack,
  default_state, apply, at_capacity, ack_cursor, nack_cursor, commit_lease, max_subscriptions,
  max_lease_batch,
}
use ce_pubsub.Subscription.Plan.{idle, plan_lease, leased_unexpired, expiry, scanned, new_floor}
use ce_pubsub.Subscription.Handled.{handled}
use ce_pubsub.Subscription.Scan.{due, deliver, stamp}
use ce_pubsub.Subscription.Delivery.{InReach, Fits, scanned-Outcome, scan_complete}
use ce_pubsub.Subscription.Commit.{lease_once-eq, committed, lease_once}

-- The subscription that an operation names.
pub target : SubOp → Text
target (create name policy) = name
target (delete name) = name
target (apply_lease name leased dead new_acked) = name
target (ack name c) = name
target (nack name c) = name

-- The state of the named subscription after an operation, from its state before.
pub effect : SubOp → Option SubscriptionState → Option SubscriptionState
effect (create name policy) o = some (record (Option.get_or o default_state) { policy = policy })
effect (delete name) o = none
effect (apply_lease name leased dead new_acked) o =
    Option.map (commit_lease leased dead new_acked) o
effect (ack name c) o = Option.map (ack_cursor c) o
effect (nack name c) o = Option.map (nack_cursor c) o

-- An operation changes the state of the subscription it names by `effect`, and leaves every other
-- subscription as it was.
pub lookup-apply :
    (r : SubRegistry) (op : SubOp) (q : Text)
    → lookup q (apply r op).subs
      ≡ (if same (target op) q then effect op (lookup q r.subs) else lookup q r.subs)
unfolding apply target effect
lookup-apply r (create name policy) q =
    let s = record (Option.get_or (lookup name r.subs) default_state) { policy = policy } in
    ground (arith, lookup-insert name q s r.subs, same_eq name q)
lookup-apply r (delete name) q = lookup-remove name q r.subs
lookup-apply r (apply_lease name leased dead new_acked) q =
    lookup-modify name q (commit_lease leased dead new_acked) r.subs
lookup-apply r (ack name c) q = lookup-modify name q (ack_cursor c) r.subs
lookup-apply r (nack name c) q = lookup-modify name q (nack_cursor c) r.subs

pub record IsBounded (r : SubRegistry) : Type 0 where
  pub sorted : IsSorted r.subs
  pub bounded : length r.subs ≤ max_subscriptions

modify-IsBounded :
    (r : SubRegistry) (name : Text) (f : SubscriptionState → SubscriptionState)
    → IsBounded r
    → IsBounded (record r { subs = modify name f r.subs })
modify-IsBounded r name f v =
    let b = v.bounded in
    record {
      sorted = modify-IsSorted name f r.subs v.sorted;
      bounded = omega (arith, length-modify name f r.subs);
    }

-- Whether an operation would create one subscription too many.
abbrev pub overfull : SubRegistry → SubOp → Bool
overfull r (create name policy) = at_capacity r name
overfull r (delete name) = false
overfull r (apply_lease name leased dead new_acked) = false
overfull r (ack name c) = false
overfull r (nack name c) = false

-- The owner asks `at_capacity` before it creates: then the registry stays sorted by name, and
-- within the limit on subscriptions.
pub apply-IsBounded :
    (r : SubRegistry) (op : SubOp) → overfull r op ≡ false → IsBounded r → IsBounded (apply r op)
unfolding apply at_capacity
apply-IsBounded r (create name policy) c v =
    let s = record (Option.get_or (lookup name r.subs) default_state) { policy = policy } in
    let b = v.bounded in
    record {
      sorted = insert-IsSorted name s r.subs v.sorted;
      bounded =
          ground
            (arith, c, length-insert name s r.subs, length-insert_present name s r.subs v.sorted);
    }
apply-IsBounded r (delete name) c v =
    let b = v.bounded in
    record {
      sorted = remove-IsSorted name r.subs v.sorted;
      bounded = omega (arith, length-remove-le name r.subs);
    }
apply-IsBounded r (apply_lease name leased dead new_acked) c v =
    modify-IsBounded r name (commit_lease leased dead new_acked) v
apply-IsBounded r (ack name k) c v = modify-IsBounded r name (ack_cursor k) v
apply-IsBounded r (nack name k) c v = modify-IsBounded r name (nack_cursor k) v

plan_lease-eq-some :
    (r : SubRegistry) (name : Text) (high floor : Cursor) (now limit : ℕ) (s : SubscriptionState)
    (op : SubOp) (out : LeaseOutcome)
    → lookup name r.subs ≡ some s
    → plan_lease r name high floor now limit ≡ some (op, out)
    → let p = scanned s high floor now limit in
      (op ≡ apply_lease name p.leased_stamped p.dead (new_floor s floor p))
      × (out ≡ record { leased = p.leased_out; dead_lettered = p.dead })
      × (idle p ≡ false)
unfolding plan_lease
plan_lease-eq-some r name high floor now limit s op out hit e =
    ground (arith, rw (hit, plan_lease) at e)

pub overfull-plan_lease :
    (r : SubRegistry) (name : Text) (high floor : Cursor) (now limit : ℕ) (op : SubOp)
    (out : LeaseOutcome)
    → plan_lease r name high floor now limit ≡ some (op, out)
    → overfull r op ≡ false
unfolding plan_lease
overfull-plan_lease r name high floor now limit op out e =
    elim (Option-cases (lookup name r.subs)) [
      | inl gone ↦ absurd (ground (arith, rw (gone, plan_lease) at e))
      | inr (s, hit) ↦ rw (plan_lease-eq-some r name high floor now limit s op out hit e).0 refl
    ]

-- The plan of a subscription that exists: applying it is `lease_once`, and the answer is the scan's.
pub apply-plan_lease :
    (r : SubRegistry) (name : Text) (high floor : Cursor) (now limit : ℕ) (s : SubscriptionState)
    (op : SubOp) (out : LeaseOutcome)
    → lookup name r.subs ≡ some s
    → plan_lease r name high floor now limit ≡ some (op, out)
    → (lookup name (apply r op).subs ≡ some (lease_once s high floor now limit))
      × (out.leased ≡ (scanned s high floor now limit).leased_out)
      × (out.dead_lettered ≡ (scanned s high floor now limit).dead)
unfolding apply committed
apply-plan_lease r name high floor now limit s op out hit e =
    let (o, l, busy) = plan_lease-eq-some r name high floor now limit s op out hit e in
    let p = scanned s high floor now limit in
    let f = commit_lease p.leased_stamped p.dead (new_floor s floor p) in
    (
      rw (o, lease_once-eq s high floor now limit busy)
          (ground (arith, lookup-modify name name f r.subs, same_refl name, hit)),
      rw l refl,
      rw l refl,
    )

map-nil {ℓ κ} :
    {A : Type ℓ} {B : Type κ} (f : A → B) (xs : List A) → length (map f xs) ≡ 0 → xs ≡ []
map-nil f [] h = refl
map-nil f (x ∷ xs) h = absurd (omega arith)

member-nil : (c : Cursor) (cs : List Cursor) → length cs ≡ 0 → member c cs ≡ false
member-nil c [] h = refl
member-nil c (x ∷ cs) h = absurd (omega arith)

-- If a call with a limit above 0 returns no plan for a subscription that exists, every cursor in
-- reach of it is handled or under a live lease; no sum may wrap.
pub plan_lease-eq-none :
    (r : SubRegistry) (name : Text) (high floor : Cursor) (now limit : ℕ) (s : SubscriptionState)
    → lookup name r.subs ≡ some s
    → Fits s high floor
    → 0 < limit
    → plan_lease r name high floor now limit ≡ none
    → (c : Cursor) → InReach s high floor c
    → (handled s c || leased_unexpired s now c) ≡ true
unfolding plan_lease idle
plan_lease-eq-none r name high floor now limit s hit fits some_ e c reach =
    let p = scanned s high floor now limit in
    let (n, _, out, stamped, _, _, _) = scanned-Outcome s high floor now limit fits in
    let xs = select (due s now) (range (suc (max s.acked floor)) n) in
    let still : (length p.leased_stamped ≡ 0) × (length p.dead ≡ 0) =
      ground (arith, rw (hit, plan_lease) at e) in
    let none_due : xs ≡ [] = map-nil (stamp (expiry s now)) xs (rw stamped at still.0) in
    let none_out : p.leased_out ≡ [] = out ∙ ap (map (deliver s)) none_due in
    elim (Bool-cases (handled s c || leased_unexpired s now c)) [
      | inl done ↦ done
      | inr free ↦
          let room : length p.leased_out < min limit max_lease_batch = rw none_out (omega arith) in
          let found = scan_complete s high floor now limit fits c room reach in
          absurd (ground (arith, found, free, member-nil c p.dead still.1, none_out))
    ]
