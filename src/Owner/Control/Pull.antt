-- ===== src/Owner/Control/Pull.antt =====
-- A pull: the messages that the answer carries are those of the lease.
use ce_pubsub.Prelude.{
  ℕ, ◌≤◌, ◌<◌, ◌≡◌, refl, ap, ◌∙◌, true, Option, none, some, List, [], ◌∷◌, map, member, arith,
}
use ce_pubsub.Prelude.Order.{Text, text_order}
use ce_pubsub.Prelude.Map.{lookup, has}
use ce_pubsub.Message.{Cursor, Message}
use ce_pubsub.Log
use ce_pubsub.Log.{TopicLog}
use ce_pubsub.Log.Invariant.{IsWellFormed}
use ce_pubsub.Log.Lookup.{get-eq-some}
use ce_pubsub.Subscription
use ce_pubsub.Subscription.{SubscriptionState, SubRegistry, SubOp, LeaseOutcome}
use ce_pubsub.Subscription.Plan.{scanned, plan_lease}
use ce_pubsub.Subscription.Delivery.{cursors, Fits, leased_sound}
use ce_pubsub.Subscription.Commit.{lease_once}
use ce_pubsub.Subscription.Registry.{apply-plan_lease}
use ce_pubsub.Caps.{Iam}
use ce_pubsub.Protocol.ControlReply.{pulled}
use ce_pubsub.Protocol.{Wire, LeasedMessage}
use ce_pubsub.Owner.{Owner, World}
use ce_pubsub.Owner.Control.{resolve, deliver, route_any, route_dead_letters, handle_lease}

-- What a leased message says: its cursor, and which attempt it is.
abbrev pub stamp_of : LeasedMessage → Cursor × ℕ
stamp_of m = (m.message.cursor, m.delivery_attempt)

-- What a leased message carries: its message, and which attempt it is.
abbrev pub carried : LeasedMessage → Option Message × ℕ
carried m = (some m.message, m.delivery_attempt)

-- What a leased cursor asks for: the message that the log holds under it, and the attempt.
abbrev pub asked : TopicLog → Cursor × ℕ → Option Message × ℕ
asked l p = (Log.get l p.0, p.1)

-- Every leased cursor that the log can reach is answered.
resolve_lem :
    {l : TopicLog} (leased : List (Cursor × ℕ))
    → IsWellFormed l
    → ((c : Cursor) → member c (cursors leased) ≡ true → (l.floor < c) × (c ≤ Log.high_cursor l))
    → (map stamp_of (resolve l leased) ≡ leased)
      × (map carried (resolve l leased) ≡ map (asked l) leased)
unfolding resolve
resolve_lem [] v reach = (refl, refl)
resolve_lem {l} ((c, n) ∷ leased) v reach =
    let (above, below) = reach c (ground arith) in
    let (m, e, q) = get-eq-some c v above below in
    let (stamps, contents) = resolve_lem leased v (λ k h. reach k (ground (arith, h))) in
    (
      rw (e, resolve) (rw q (ap (◌∷◌ (c, n)) stamps)),
      rw (e, resolve) (ap (◌∷◌ (some m, n)) contents),
    )

-- What a pull relies on: a proposal on the registry without an error has been applied.
pub record AppliesSubs (w : World) : Type 0 where
  pub subs_applied :
      (r : SubRegistry) (op : SubOp)
      → (w.propose_subs r op).1 ≡ none
      → (w.propose_subs r op).0 ≡ Subscription.apply r op

module _ (iam : Iam) (wire : Wire) (w : World) where
  route_any_lem :
      (o : Owner) (cursors : List Cursor)
      → ((route_any iam wire w o cursors).log ≡ o.log)
        × ((route_any iam wire w o cursors).subs ≡ o.subs)
  unfolding route_any route_dead_letters
  route_any_lem o [] = (refl, refl)
  route_any_lem o (c ∷ cursors) = ground arith

  pub deliver_lem :
      (o : Owner) (outcome : LeaseOutcome)
      → (deliver iam wire w o outcome).0.log ≡ o.log
        × ((deliver iam wire w o outcome).0.subs ≡ o.subs)
        × ((deliver iam wire w o outcome).1 ≡ pulled (resolve o.log outcome.leased))
  unfolding deliver
  deliver_lem o outcome =
      let (log, subs) = route_any_lem o outcome.dead_lettered in
      (log, subs, ap (λ l. pulled (resolve l outcome.leased)) log)

  -- A pull on a subscription whose plan is not empty and is committed without an error, on a
  -- well-formed log where no sum wraps: the subscription goes through the lease of the scan, the
  -- log is kept, and the answer carries, in order and for each leased cursor, the message that
  -- the log holds under it, with that cursor and its attempt.
  pub handle_lease_lem :
      (o : Owner) (name : Text) (k now : ℕ) (s : SubscriptionState) (op : SubOp)
      (out : LeaseOutcome)
      → AppliesSubs w
      → IsWellFormed o.log
      → Fits s (Log.high_cursor o.log) o.log.floor
      → lookup name o.subs.subs ≡ some s
      → plan_lease o.subs name (Log.high_cursor o.log) o.log.floor now k ≡ some (op, out)
      → (w.propose_subs o.subs op).1 ≡ none
      → let (o', reply) = handle_lease iam wire w o name k now in
        let high = Log.high_cursor o.log in
        (msgs : List LeasedMessage) × (reply ≡ pulled msgs)
        × (map stamp_of msgs ≡ (scanned s high o.log.floor now k).leased_out)
        × (map carried msgs ≡ map (asked o.log) (scanned s high o.log.floor now k).leased_out)
        × (lookup name o'.subs.subs ≡ some (lease_once s high o.log.floor now k))
        × (o'.log ≡ o.log)
  unfolding handle_lease
  handle_lease_lem o name k now s op out applies v fits hit plan fine =
      let high = Log.high_cursor o.log in
      let (state, leased, dead) =
        apply-plan_lease o.subs name high o.log.floor now k s op out hit plan in
      let o1 = record o { subs = (w.propose_subs o.subs op).0 } in
      let (log, subs, reply) = deliver_lem o1 out in
      let there : has name o.subs.subs ≡ true = ground (arith, hit) in
      let reach : (c : Cursor)
          → member c (cursors out.leased) ≡ true
          → (o.log.floor < c) × (c ≤ high) =
        λ c h.
          let ((_, above, below), _, _, _) =
            leased_sound s high o.log.floor now k fits c (rw leased at h) in
          (above, below) in
      rw (there, plan, fine, handle_lease)
        (
          resolve o.log out.leased,
          reply,
          (resolve_lem out.leased v reach).0 ∙ leased,
          (resolve_lem out.leased v reach).1 ∙ ap (map (asked o.log)) leased,
          ap (λ (r : SubRegistry). lookup name r.subs) (subs ∙ applies.subs_applied o.subs op fine)
              ∙ state,
          log,
        )
