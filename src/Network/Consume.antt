-- ===== src/Network/Consume.antt =====
-- The consumer's calls from end to end.
use ce_pubsub.Prelude.{ℕ, ◌≡◌, refl, sym, ap, ◌∙◌, inl, inr, ◌⊎◌, arith, Bool-cases}
use ce_pubsub.Prelude.Order.{Text, text_order}
use ce_pubsub.Prelude.Result.{Result, ok, ok-eq, Result-cases}
use ce_pubsub.Dedup.{seen}
use ce_pubsub.Subscription
use ce_pubsub.Caps.{Iam}
use ce_pubsub.Protocol
use ce_pubsub.Protocol.{Wire, ControlRequest, ControlReply, LeasedMessage, decode_control}
use ce_pubsub.Owner.{Owner, World, Refusal}
use ce_pubsub.Owner.Control
use ce_pubsub.Owner
use ce_pubsub.Owner.Control.{
  ControlRefusal, handle_control, admitted, admit_subscriber, is_high_cursor, bad_body, bad_hex,
  refused,
}
use ce_pubsub.Owner.Serve.{Words, Node, worded_control}
use ce_pubsub.Client.Remote.{control}
use ce_pubsub.Network.{Faithful, direct}
use ce_pubsub.Network.Frames.{serve_frame-control}

decode_control-eq :
    (wire : Wire) (laws : Faithful wire) (req got : ControlRequest)
    → decode_control wire (wire.control_to_json req) ≡ ok got
    → got ≡ req
unfolding decode_control
decode_control-eq wire laws req got e = ground (arith, e, laws.controls req)

module _ (iam : Iam) (wire : Wire) (w : World) (words : Words) (laws : Faithful wire) (me : Text)
    (now : ℕ) where
  -- A control request that is answered was handled, and the answer is the owner's.
  pub control-direct :
      (n : Node) (k : ℕ) (owner : Text) (req : ControlRequest) (timeout_ms : ℕ)
      (r : ControlReply Text)
      → let (s', out) =
          control wire (direct iam wire w words me now) (n, k) n.owner.topic owner req timeout_ms in
        let (o, reply) =
          handle_control iam wire w n.owner (wire.hex_encode (wire.control_to_json req)) me now in
        out ≡ ok r → (r ≡ worded_control words.control_refusal reply) × (s'.0.owner ≡ o)
  unfolding control
  control-direct n k owner req timeout_ms r e =
      let body = wire.hex_encode (wire.control_to_json req) in
      let served = serve_frame-control iam wire w words n k body me now in
      elim (Bool-cases (seen n.handled k now).1) [
        | inl old ↦ absurd (ground (arith, rw (served, old) at e))
        | inr new ↦
            let back = laws.control_replies (
              worded_control words.control_refusal
                (handle_control iam wire w n.owner body me now).1) in
            rw (served, new) (sym (ok-eq (rw (served, new, back, control) at e)), refl)
      ]

  -- A request that is not refused has passed the decoder and the gate.
  pub handle_control-admitted :
      (o : Owner) (req : ControlRequest)
      → let out = handle_control iam wire w o (wire.hex_encode (wire.control_to_json req)) me now in
        ((why : ControlRefusal) × (out ≡ (o, ControlReply.rejected why)))
        ⊎ (out ≡ Owner.Control.control iam wire w o req now)
  unfolding handle_control admitted
  handle_control-admitted o req =
      let hex = laws.requests.hex (wire.control_to_json req) (laws.control_bytes req) in
      elim (Result-cases (decode_control wire (wire.control_to_json req))) [
        | inl (why, bad) ↦ inl (bad_body why, rw (hex, bad, handle_control) refl)
        | inr (got, good) ↦
            let read = good ∙ ap ok (decode_control-eq wire laws req got good) in
            elim (Bool-cases (is_high_cursor iam wire w req)) [
              | inl open_ ↦ inr (rw (hex, read, handle_control, open_) refl)
              | inr closed ↦ elim (Result-cases (admit_subscriber iam wire w o req me now)) [
                | inl (why, bad) ↦
                    inl (refused why, rw (hex, read, handle_control, closed, bad) refl)
                | inr (u, fine) ↦ inr (rw (hex, read, handle_control, closed, fine) refl)
              ]
            ]
      ]
