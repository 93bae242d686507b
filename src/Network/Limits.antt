-- ===== src/Network/Limits.antt =====
-- Which payloads do not get through the owner's bound on the body of a request.
use ce_pubsub.Prelude.{
  ℕ, suc, ◌*◌, ◌≤◌, ◌<◌, ◌≡◌, refl, some, Option, true, arith, length, ltb, lt→ltb,
}
use ce_pubsub.Prelude.Order.{Text}
use ce_pubsub.Prelude.Result.{ok, err}
use ce_pubsub.Message.{PublishOptions, validate_topic, validate_payload, validate_options}
use ce_pubsub.Caps.{Iam}
use ce_pubsub.Protocol.{
  Wire, IngestReply, IngestRequest, max_ingest_hex_bytes, too_large, decode_ingest_hex,
}
use ce_pubsub.Owner.{World, bad_request, handle_ingest}
use ce_pubsub.Owner.Serve.{Words, Node, worded}
use ce_pubsub.Client.Remote.{
  owner_rejected, published, after_checks, ingest_request, send_publish, publish_to_with,
}
use ce_pubsub.Network.{direct}
use ce_pubsub.Network.Frames.{serve_frame-ingest}

-- What the encodings do to lengths: two hex digits for a byte, and the payload's digits among those
-- of the JSON body.
pub record Widens (wire : Wire) : Type 0 where
  pub doubled : (bytes : Text) → length (wire.hex_encode bytes) ≡ 2 * length bytes
  pub enveloped : (req : IngestRequest) → length req.payload_hex ≤ length (wire.ingest_to_json req)
  pub replies :
      (r : IngestReply Text) → wire.ingest_reply_from_json (wire.ingest_reply_to_json r) ≡ ok r

-- On the wire the payload is written in hex twice.
body-large :
    (wire : Wire) (laws : Widens wire) (payload : Text) (grant : Option Text)
    (opts : PublishOptions) (key : Option Text)
    → max_ingest_hex_bytes < 4 * length payload
    → let body =
        wire.hex_encode (wire.ingest_to_json (ingest_request wire payload grant opts key)) in
      ltb max_ingest_hex_bytes (length body) ≡ true
unfolding ingest_request
body-large wire laws payload grant opts key large =
    let req = ingest_request wire payload grant opts key in
    let a = laws.doubled payload in
    let b = laws.enveloped req in
    let c = laws.doubled (wire.ingest_to_json req) in
    lt→ltb max_ingest_hex_bytes (length (wire.hex_encode (wire.ingest_to_json req)))
      (omega (arith, a, b, c, large))

decode_ingest_hex-large :
    (wire : Wire) (body : Text)
    → ltb max_ingest_hex_bytes (length body) ≡ true
    → decode_ingest_hex wire body ≡ err too_large
unfolding decode_ingest_hex
decode_ingest_hex-large wire body large = rw large refl

module _ (iam : Iam) (wire : Wire) (w : World) (words : Words) (laws : Widens wire) (me : Text)
    (now : ℕ) where
  -- If hex doubles a text, the JSON body of a request is at least as long as the payload's hex in
  -- it, and replies can be read back, then a payload of more than a quarter of the bound on the
  -- hex of a body, with a valid topic and options and within the bound on payloads, is not
  -- published: the client is told that the body is too large, and the owner is unchanged.
  pub publish_too_large :
      (n : Node) (k : ℕ) (owner payload : Text) (grant : Option Text) (opts : PublishOptions)
      (key : Option Text) (timeout_ms : ℕ)
      → validate_topic n.owner.topic ≡ ok tt
      → validate_payload payload ≡ ok tt
      → validate_options opts ≡ ok tt
      → max_ingest_hex_bytes < 4 * length payload
      → let mesh = direct iam wire w words me now in
        publish_to_with wire mesh (n, k) n.owner.topic owner payload grant opts key timeout_ms
        ≡ ((n, suc k), err (owner_rejected (words.refusal (bad_request too_large))))
  unfolding publish_to_with send_publish handle_ingest decode_ingest_hex published worded
      after_checks
  publish_too_large n k owner payload grant opts key timeout_ms topic small fine large =
      let req = ingest_request wire payload grant opts key in
      let body = wire.hex_encode (wire.ingest_to_json req) in
      let refused = IngestReply.rejected (bad_request too_large) in
      let turned_away : handle_ingest iam wire w n.owner k body me now ≡ (n.owner, some refused) =
        rw
          (
            decode_ingest_hex-large wire body (body-large wire laws payload grant opts key large),
            handle_ingest,
          )
          refl in
      let served =
        serve_frame-ingest iam wire w words n k body me now n.owner refused turned_away in
      rw (topic, small, fine, served, laws.replies (worded words.refusal refused)) refl
