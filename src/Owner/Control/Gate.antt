-- ===== src/Owner/Control/Gate.antt =====
-- Who may use the control protocol, and what a request can do to the owner.
use ce_pubsub.Prelude.{
  ℕ, ◌≡◌, ◌≢◌, refl, ap, ◌∙◌, Option, inl, inr, ◌⊎◌, Bool, true, false, if◌then◌else◌, arith,
  Bool-cases, Option-cases,
}
use ce_pubsub.Prelude.Order.{Text, codes, text_order}
use ce_pubsub.Prelude.Map.{has}
use ce_pubsub.Prelude.Result.{ok, Result-cases, ◌>>=◌}
use ce_pubsub.Message.{validate_topic}
use ce_pubsub.Log
use ce_pubsub.Subscription
use ce_pubsub.Subscription.{
  SubRegistry, SubOp, LeaseOutcome, create, delete, apply_lease, ack, nack, at_capacity,
  validate_policy,
}
use ce_pubsub.Subscription.Plan.{plan_lease}
use ce_pubsub.Subscription.Registry.{IsBounded, apply-IsBounded, overfull, overfull-plan_lease}
use ce_pubsub.Caps.{Iam, ability_subscribe, or_fail}
use ce_pubsub.Protocol
use ce_pubsub.Protocol.ControlReply.{done, rejected}
use ce_pubsub.Protocol.{ControlReply, Wire, ControlRequest, grant_of, decode_control}
use ce_pubsub.Owner.{Owner, World, Refusal, no_capability, authorize}
use ce_pubsub.Owner.Authorize.{Holds, check_grant}
use ce_pubsub.Owner.Control.{
  ControlRefusal, refused, ack_failed, nack_failed, create_failed, delete_failed,
  no_such_subscription, propose, handle_lease, control, admitted, admit_subscriber, is_high_cursor,
  handle_control,
}
use ce_pubsub.Owner.Control.Pull.{deliver_lem}

-- What a proposal on the registry does, with or without an error: it applies the operation, or it
-- changes nothing.
pub record StepsSubs (w : World) : Type 0 where
  pub steps :
      (r : SubRegistry) (op : SubOp)
      → ((w.propose_subs r op).0 ≡ Subscription.apply r op) ⊎ ((w.propose_subs r op).0 ≡ r)

module _ (iam : Iam) (wire : Wire) (w : World) where
  is_high_cursor_lem :
      (req : ControlRequest)
      → ((grant : Option Text) → req ≢ Protocol.high_cursor grant)
      → is_high_cursor iam wire w req ≡ false
  unfolding is_high_cursor
  is_high_cursor_lem (Protocol.high_cursor grant) other = absurd (other grant refl)
  is_high_cursor_lem (Protocol.create_subscription name policy grant) other = refl
  is_high_cursor_lem (Protocol.delete_subscription name grant) other = refl
  is_high_cursor_lem (Protocol.list_subscriptions grant) other = refl
  is_high_cursor_lem (Protocol.pull name max_messages grant) other = refl
  is_high_cursor_lem (Protocol.ack name cursor grant) other = refl
  is_high_cursor_lem (Protocol.nack name cursor grant) other = refl

  admit_subscriber-eq :
      (o : Owner) (req : ControlRequest) (requester : Text) (now : ℕ)
      → o.require_cap ≡ true
      → admit_subscriber iam wire w o req requester now ≡ (
          or_fail (grant_of req) no_capability >>= λ token.
          authorize iam wire w o requester ability_subscribe token now)
  unfolding admit_subscriber
  admit_subscriber-eq o req requester now gated =
      let check = or_fail (grant_of req) no_capability >>= λ token.
      authorize iam wire w o requester ability_subscribe token now in
      ap (λ b. if b then check else ok tt) gated

  -- On a topic that requires capabilities, where a control frame decodes as a request other than
  -- for the high cursor: either the request carries a token that permits its requester to
  -- subscribe, and it is handled, or it carries none, and it is refused and changes nothing. A
  -- token permits a requester if the requester's id and the owner's can be parsed, the token
  -- decodes as a chain that ce-iam-core authorizes for the requester and the ability, with
  -- exactly the capabilities revoked that the node names, and its last certificate has a scope
  -- that is a prefix of the topic.
  pub handle_control-gate :
      (o : Owner) (payload_hex requester bytes : Text) (now : ℕ) (req : ControlRequest)
      → o.require_cap ≡ true
      → wire.hex_decode payload_hex ≡ ok bytes
      → decode_control wire bytes ≡ ok req
      → ((grant : Option Text) → req ≢ Protocol.high_cursor grant)
      → (Holds iam wire w o (grant_of req) requester (codes "pubsub:subscribe") now
          × (handle_control iam wire w o payload_hex requester now ≡ control iam wire w o req now))
        ⊎ (¬ Holds iam wire w o (grant_of req) requester (codes "pubsub:subscribe") now
            × ((why : Refusal) × (handle_control iam wire w o payload_hex requester now
                  ≡ (o, rejected (refused why)))))
  unfolding handle_control admitted
  handle_control-gate o payload_hex requester bytes now req gated good read other =
      let closed = is_high_cursor_lem req other in
      let asks = admit_subscriber-eq o req requester now gated in
      elim (check_grant iam wire w o (grant_of req) requester ability_subscribe now) [
        | inl (holds, admits) ↦
            inl (holds, rw (handle_control, good, read, admitted, closed, asks ∙ admits) refl)
        | inr (lacks, (why, refuses)) ↦
            inr
              (lacks, (why, rw (handle_control, good, read, admitted, closed, asks ∙ refuses) refl))
      ]

  propose-subs :
      (o : Owner) (op : SubOp) (reply : ControlReply ControlRefusal)
      (failed : Text → ControlRefusal)
      → (propose iam wire w o op reply failed).0.subs ≡ (w.propose_subs o.subs op).0
  unfolding propose
  propose-subs o op reply failed = ground arith

  proposed-IsBounded :
      (r : SubRegistry) (op : SubOp)
      → StepsSubs w
      → overfull r op ≡ false
      → IsBounded r
      → IsBounded (w.propose_subs r op).0
  proposed-IsBounded r op steps free v = elim (steps.steps r op) [
    | inl did ↦ rw did (apply-IsBounded r op free v)
    | inr kept ↦ rw kept v
  ]

  propose-IsBounded :
      (o : Owner) (op : SubOp) (reply : ControlReply ControlRefusal)
      (failed : Text → ControlRefusal)
      → StepsSubs w
      → overfull o.subs op ≡ false
      → IsBounded o.subs
      → IsBounded (propose iam wire w o op reply failed).0.subs
  propose-IsBounded o op reply failed steps free v =
      rw (propose-subs o op reply failed) (proposed-IsBounded o.subs op steps free v)

  handle_lease-IsBounded :
      (o : Owner) (name : Text) (k now : ℕ)
      → StepsSubs w
      → IsBounded o.subs
      → IsBounded (handle_lease iam wire w o name k now).0.subs
  unfolding handle_lease
  handle_lease-IsBounded o name k now steps v = elim (Bool-cases (has name o.subs.subs)) [
    | inr gone ↦ rw (gone, handle_lease) v
    | inl there ↦
        elim (Option-cases (plan_lease o.subs name (Log.high_cursor o.log) o.log.floor now k)) [
          | inl idle ↦ rw (there, idle, handle_lease) v
          | inr ((op, out), plan) ↦
              let free =
                overfull-plan_lease o.subs name (Log.high_cursor o.log) o.log.floor now k op out
                  plan in
              let after = proposed-IsBounded o.subs op steps free v in
              elim (Option-cases (w.propose_subs o.subs op).1) [
                | inl fine ↦
                    rw (there, plan, fine, handle_lease)
                      (rw
                        (deliver_lem iam wire w (record o { subs = (w.propose_subs o.subs op).0 })
                          out).1
                        after)
                | inr (why, failed) ↦ rw (there, plan, failed, handle_lease) after
              ]
        ]
  ]

  guarded-IsBounded :
      (o : Owner) (op : SubOp) (failed : Text → ControlRefusal) (test : Bool) (why : ControlRefusal)
      → StepsSubs w
      → overfull o.subs op ≡ false
      → IsBounded o.subs
      → IsBounded (if test then propose iam wire w o op done failed else (o, rejected why)).0.subs
  guarded-IsBounded o op failed true why steps free v =
      propose-IsBounded o op done failed steps free v
  guarded-IsBounded o op failed false why steps free v = v

  control-IsBounded :
      (o : Owner) (req : ControlRequest) (now : ℕ)
      → StepsSubs w
      → IsBounded o.subs
      → IsBounded (control iam wire w o req now).0.subs
  unfolding control
  control-IsBounded o (Protocol.high_cursor grant) now steps v = v
  control-IsBounded o (Protocol.create_subscription name policy grant) now steps v =
      elim (Result-cases (validate_policy policy)) [
        | inl (why, bad) ↦ rw (bad, control) v
        | inr (valid, good) ↦ elim (Result-cases (validate_topic name)) [
          | inl (why, bad) ↦ rw (good, bad, control) v
          | inr (fine, named) ↦ elim (Bool-cases (at_capacity o.subs name)) [
            | inl full ↦ rw (good, named, full, control) v
            | inr free ↦
                rw (good, named, free, control)
                  (propose-IsBounded o (create name policy) done create_failed steps free v)
          ]
        ]
      ]
  control-IsBounded o (Protocol.delete_subscription name grant) now steps v =
      propose-IsBounded o (delete name) done delete_failed steps refl v
  control-IsBounded o (Protocol.list_subscriptions grant) now steps v = v
  control-IsBounded o (Protocol.pull name max_messages grant) now steps v =
      handle_lease-IsBounded o name max_messages now steps v
  control-IsBounded o (Protocol.ack name cursor grant) now steps v =
      guarded-IsBounded o (ack name cursor) ack_failed (has name o.subs.subs)
        (no_such_subscription name) steps refl v
  control-IsBounded o (Protocol.nack name cursor grant) now steps v =
      guarded-IsBounded o (nack name cursor) nack_failed (has name o.subs.subs)
        (no_such_subscription name) steps refl v

  admitted-IsBounded :
      (o : Owner) (req : ControlRequest) (requester : Text) (now : ℕ)
      → StepsSubs w
      → IsBounded o.subs
      → IsBounded (admitted iam wire w o req requester now).0.subs
  unfolding admitted
  admitted-IsBounded o req requester now steps v =
      let after = control-IsBounded o req now steps v in
      elim (Bool-cases (is_high_cursor iam wire w req)) [
        | inl open_ ↦ rw (open_, admitted) after
        | inr closed ↦ elim (Result-cases (admit_subscriber iam wire w o req requester now)) [
          | inl (why, bad) ↦ rw (closed, bad, admitted) v
          | inr (u, good) ↦ rw (closed, good, admitted) after
        ]
      ]

  -- Whatever a peer sends to the control topic, the registry stays sorted by name and within the
  -- limit on subscriptions. Each proposal is taken to apply its operation or to change nothing.
  pub handle_control-IsBounded :
      (o : Owner) (payload_hex requester : Text) (now : ℕ)
      → StepsSubs w
      → IsBounded o.subs
      → IsBounded (handle_control iam wire w o payload_hex requester now).0.subs
  unfolding handle_control
  handle_control-IsBounded o payload_hex requester now steps v =
      elim (Result-cases (wire.hex_decode payload_hex)) [
        | inl (why, bad) ↦ rw (bad, handle_control) v
        | inr (bytes, good) ↦ elim (Result-cases (decode_control wire bytes)) [
          | inl (why, bad) ↦ rw (good, bad, handle_control) v
          | inr (req, read) ↦
              rw (good, read, handle_control) (admitted-IsBounded o req requester now steps v)
        ]
      ]
