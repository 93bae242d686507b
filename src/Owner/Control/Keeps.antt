-- ===== src/Owner/Control/Keeps.antt =====
-- What a control request leaves alone.
use ce_pubsub.Prelude.{ℕ, ◌≡◌, refl, inl, inr, List, [], ◌∷◌, arith, Bool-cases, Option-cases}
use ce_pubsub.Prelude.Order.{Text, text_order}
use ce_pubsub.Prelude.Result.{Result-cases}
use ce_pubsub.Message.{Cursor}
use ce_pubsub.Log
use ce_pubsub.Subscription
use ce_pubsub.Subscription.{SubOp}
use ce_pubsub.Subscription.Plan.{plan_lease}
use ce_pubsub.Prelude.Map.{has}
use ce_pubsub.Caps.{Iam}
use ce_pubsub.Protocol
use ce_pubsub.Protocol.{Wire, ControlRequest, ControlReply, decode_control}
use ce_pubsub.Owner.{Owner, World}
use ce_pubsub.Owner
use ce_pubsub.Owner.Control
use ce_pubsub.Owner.Control.{
  ControlRefusal, handle_control, propose, deliver, route_any, route_dead_letters, handle_lease,
  admitted,
}

module _ (iam : Iam) (wire : Wire) (w : World) where
  -- A control request touches neither the log nor the cache.
  route_any-keeps :
      (o : Owner) (cursors : List Cursor)
      → let o' = route_any iam wire w o cursors in (o'.log ≡ o.log) × (o'.dedup ≡ o.dedup)
  unfolding route_any route_dead_letters
  route_any-keeps o [] = (refl, refl)
  route_any-keeps o (c ∷ cursors) = ground arith

  propose-keeps :
      (o : Owner) (op : SubOp) (reply : ControlReply ControlRefusal)
      (failed : Text → ControlRefusal)
      → let o' = (propose iam wire w o op reply failed).0 in (o'.log ≡ o.log) × (o'.dedup ≡ o.dedup)
  unfolding propose
  propose-keeps o op reply failed = ground arith

  handle_lease-keeps :
      (o : Owner) (name : Text) (k now : ℕ)
      → let o' = (handle_lease iam wire w o name k now).0 in (o'.log ≡ o.log) × (o'.dedup ≡ o.dedup)
  unfolding handle_lease deliver
  handle_lease-keeps o name k now = elim (Bool-cases (has name o.subs.subs)) [
    | inr gone ↦ rw (gone, handle_lease) (refl, refl)
    | inl there ↦
        elim (Option-cases (plan_lease o.subs name (Log.high_cursor o.log) o.log.floor now k)) [
          | inl nothing ↦ rw (there, nothing, handle_lease) (refl, refl)
          | inr ((op, out), planned) ↦ elim (Option-cases (w.propose_subs o.subs op).1) [
            | inl fine ↦
                rw (there, planned, fine, handle_lease)
                  (route_any-keeps (record o { subs = (w.propose_subs o.subs op).0 })
                    out.dead_lettered)
            | inr (why, failed) ↦ rw (there, planned, failed, handle_lease) (refl, refl)
          ]
        ]
  ]

  control-keeps :
      (o : Owner) (req : ControlRequest) (now : ℕ)
      → let o' = (Owner.Control.control iam wire w o req now).0 in
        (o'.log ≡ o.log) × (o'.dedup ≡ o.dedup)
  unfolding Owner.Control.control
  control-keeps o (Protocol.high_cursor grant) now = (refl, refl)
  control-keeps o (Protocol.create_subscription name policy grant) now =
      let kept =
        propose-keeps o (Subscription.create name policy) ControlReply.done
          Owner.Control.create_failed in
      ground (arith, kept)
  control-keeps o (Protocol.delete_subscription name grant) now =
      propose-keeps o (Subscription.delete name) ControlReply.done Owner.Control.delete_failed
  control-keeps o (Protocol.list_subscriptions grant) now = (refl, refl)
  control-keeps o (Protocol.pull name k grant) now = handle_lease-keeps o name k now
  control-keeps o (Protocol.ack name c grant) now =
      let kept =
        propose-keeps o (Subscription.ack name c) ControlReply.done Owner.Control.ack_failed in
      ground (arith, kept)
  control-keeps o (Protocol.nack name c grant) now =
      let kept =
        propose-keeps o (Subscription.nack name c) ControlReply.done Owner.Control.nack_failed in
      ground (arith, kept)

  pub handle_control-keeps :
      (o : Owner) (body requester : Text) (now : ℕ)
      → let o' = (handle_control iam wire w o body requester now).0 in
        (o'.log ≡ o.log) × (o'.dedup ≡ o.dedup)
  unfolding handle_control admitted
  handle_control-keeps o body requester now = elim (Result-cases (wire.hex_decode body)) [
    | inl (why, bad) ↦ rw (bad, handle_control) (refl, refl)
    | inr (bytes, good) ↦ elim (Result-cases (decode_control wire bytes)) [
      | inl (why, bad) ↦ rw (good, bad, handle_control) (refl, refl)
      | inr (req, read) ↦ let kept = control-keeps o req now in ground (arith, good, read, kept)
    ]
  ]
