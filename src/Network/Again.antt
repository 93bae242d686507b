-- ===== src/Network/Again.antt =====
-- A frame that the inbox delivers a second time to the owner's loops.
use ce_pubsub.Prelude.{
  ℕ, ◌-◌, ◌≤◌, ◌≡◌, refl, ap, ◌∙◌, inl, inr, true, false, none, some, List, [], ◌∷◌, Bool-cases,
}
use ce_pubsub.Prelude.Order.{Text, same, text_order}
use ce_pubsub.Prelude.Result.{ok}
use ce_pubsub.Message.{ingest_topic, control_topic}
use ce_pubsub.Dedup
use ce_pubsub.Dedup.{TokenSet, expired, seen}
use ce_pubsub.Dedup.Recall.{seen-seen}
use ce_pubsub.Caps.{Iam}
use ce_pubsub.Protocol.{Wire, IngestReply, IngestRequest, decode_ingest_hex}
use ce_pubsub.Owner.{Owner, World, Refusal, dedup_key, ingest, handle_ingest}
use ce_pubsub.Owner.Ingest.{answer_again, ingest-ingest}
use ce_pubsub.Owner.Control.{handle_control}
use ce_pubsub.Owner.Serve.{Frame, Words, Node, worded, serve_control_frame, serve_frame}
use ce_pubsub.Network.Frames.{
  serve_frame-ingest, serve_frame-control, ingest-topic, topic_other, serve_ingest_frame-other,
}

abbrev pub request_frame : Text → ℕ → Text → Text → Frame
request_frame topic token body from = record {
  topic = topic;
  reply_token = some token;
  payload_hex = body;
  from = from;
}

module _ (iam : Iam) (wire : Wire) (w : World) (words : Words) where
  -- A token that was answered: the control loop passes the frame by.
  serve_control_frame-old :
      (n : Node) (frame : Frame) (token now : ℕ)
      → frame.reply_token ≡ some token
      → seen n.handled token now ≡ (n.handled, true)
      → serve_control_frame iam wire w words n frame now ≡ (n, none)
  unfolding serve_control_frame
  serve_control_frame-old n frame token now has_token old =
      elim (Bool-cases (same frame.topic (control_topic n.owner.topic))) [
        | inr other ↦ rw (other, serve_control_frame) refl
        | inl mine ↦ rw (mine, has_token, old, serve_control_frame) refl
      ]

  -- A frame on a control topic whose token was answered.
  serve_frame-old :
      (n : Node) (t : Text) (token now : ℕ) (body from : Text)
      → seen n.handled token now ≡ (n.handled, true)
      → serve_frame iam wire w words n (request_frame (control_topic t) token body from) now
        ≡ (n, [])
  unfolding serve_frame
  serve_frame-old n t token now body from old =
      let frame = request_frame (control_topic t) token body from in
      let first =
        serve_ingest_frame-other iam wire w words n.owner frame now (topic_other t n.owner.topic) in
      let second = serve_control_frame-old n frame token now refl old in
      rw (serve_frame, first, second) refl

  -- After a control frame whose token was new, a control frame with the same token, of whatever
  -- content and sender, changes nothing and is not answered while the token lives.
  pub control_again :
      (n : Node) (token now later : ℕ) (body body' from from' : Text)
      → (seen n.handled token now).1 ≡ false
      → later - now ≤ n.handled.ttl_secs
      → let topic = control_topic n.owner.topic in
        let n' = (serve_frame iam wire w words n (request_frame topic token body from) now).0 in
        serve_frame iam wire w words n' (request_frame topic token body' from') later ≡ (n', [])
  control_again n token now later body body' from from' new live =
      let topic = control_topic n.owner.topic in
      let n' = (serve_frame iam wire w words n (request_frame topic token body from) now).0 in
      let (o, reply) = handle_control iam wire w n.owner body from now in
      let first : n'.handled ≡ (seen n.handled token now).0 =
        ap (λ (x : Node × List (ℕ × Text)). x.0.handled)
          (rw new at (serve_frame-control iam wire w words n token body from now)) in
      serve_frame-old n' n.owner.topic token later body' from'
        (rw first (seen-seen n.handled token now later new live))

  handle_ingest-eq :
      (o : Owner) (token : ℕ) (body from : Text) (now : ℕ) (req : IngestRequest)
      → decode_ingest_hex wire body ≡ ok req
      → let (o', reply) = ingest iam wire w o req token from now in
        handle_ingest iam wire w o token body from now ≡ (o', some reply)
  unfolding handle_ingest
  handle_ingest-eq o token body from now req read = rw (read, handle_ingest) refl

  -- After an ingest frame whose request has a key that was not in the cache, an ingest frame
  -- whose request has the same key, of whatever content, token and sender, changes nothing while
  -- the key lives: its answer carries the first cursor if the first request was accepted, and the
  -- refusal of a duplicate if that was refused.
  pub ingest_again :
      (n : Node) (token token' now later : ℕ) (body body' from from' : Text)
      (req again : IngestRequest)
      → decode_ingest_hex wire body ≡ ok req
      → decode_ingest_hex wire body' ≡ ok again
      → dedup_key iam wire w again token' ≡ dedup_key iam wire w req token
      → (Dedup.get n.owner.dedup (dedup_key iam wire w req token) now).1 ≡ none
      → expired (Dedup.get n.owner.dedup (dedup_key iam wire w req token) now).0.ttl_secs later now
        ≡ false
      → let topic = ingest_topic n.owner.topic in
        let reply = (ingest iam wire w n.owner req token from now).1 in
        let n' = (serve_frame iam wire w words n (request_frame topic token body from) now).0 in
        ((serve_frame iam wire w words n (request_frame topic token body from) now).1
          ≡ (token, wire.ingest_reply_to_json (worded words.refusal reply)) ∷ [])
        × (serve_frame iam wire w words n' (request_frame topic token' body' from') later ≡ (
          n',
          (token', wire.ingest_reply_to_json (worded words.refusal (answer_again reply))) ∷ [],
        ))
  ingest_again n token token' now later body body' from from' req again read read' key new live =
      let o1 = (ingest iam wire w n.owner req token from now).0 in
      let reply = (ingest iam wire w n.owner req token from now).1 in
      let first =
        serve_frame-ingest iam wire w words n token body from now o1 reply
          (handle_ingest-eq n.owner token body from now req read) in
      let kept = ingest-topic iam wire w words n.owner req token from now in
      let repeat =
        ingest-ingest iam wire w n.owner req again token token' from from' now later new key live in
      let second =
        serve_frame-ingest iam wire w words (record n { owner = o1 }) token' body' from' later o1
          (answer_again reply)
          (handle_ingest-eq o1 token' body' from' later again read'
            ∙ ap (λ (x : Owner × IngestReply Refusal). (x.0, some x.1)) repeat) in
      rw first (refl, rw kept at second)
