-- ===== src/Network/Frames.antt =====
-- What the owner's loops make of a frame.
use ce_pubsub.Prelude.{
  ℕ, ◌≡◌, refl, inl, inr, false, none, some, [], ◌∷◌, if◌then◌else◌, arith, Bool-cases,
}
use ce_pubsub.Prelude.Order.{Text, same, same_refl, same_eq, text_order}
use ce_pubsub.Prelude.Result.{◌>>=◌, Result-cases}
use ce_pubsub.Message.{Message, ingest_topic, control_topic}
use ce_pubsub.Dedup
use ce_pubsub.Dedup.{seen}
use ce_pubsub.Caps.{Iam}
use ce_pubsub.Protocol.{Wire, IngestReply, IngestRequest}
use ce_pubsub.Owner.{
  Owner, World, Refusal, handle_ingest, append_and_fanout, apply_ingest, admit_publisher,
  message_of,
}
use ce_pubsub.Owner
use ce_pubsub.Owner.Control.{handle_control}
use ce_pubsub.Owner.Serve.{
  Frame, Words, Node, worded, worded_control, serve_ingest_frame, serve_control_frame, serve_frame,
}

other_topic : (t u : Text) → same (ingest_topic t) (control_topic u) ≡ false
unfolding ingest_topic control_topic
other_topic t u = elim (Bool-cases (same (ingest_topic t) (control_topic u))) [
  | inr no_ ↦ no_
  | inl e ↦ let h = same_eq (ingest_topic t) (control_topic u) e in absurd (ground (arith, h))
]

pub topic_other : (t u : Text) → same (control_topic t) (ingest_topic u) ≡ false
unfolding ingest_topic control_topic
topic_other t u = elim (Bool-cases (same (control_topic t) (ingest_topic u))) [
  | inr no_ ↦ no_
  | inl e ↦ let h = same_eq (control_topic t) (ingest_topic u) e in absurd (ground (arith, h))
]

module _ (iam : Iam) (wire : Wire) (w : World) (words : Words) where
  append_and_fanout-topic :
      (o : Owner) (m : Message) → (append_and_fanout iam wire w o m).0.topic ≡ o.topic
  unfolding append_and_fanout
  append_and_fanout-topic o m = ground arith

  apply_ingest-topic :
      (o : Owner) (req : IngestRequest) (publisher : Text) (now : ℕ)
      → (apply_ingest iam wire w o req publisher now).0.topic ≡ o.topic
  unfolding apply_ingest
  apply_ingest-topic o req publisher now =
      elim (Result-cases (
        admit_publisher iam wire w o req publisher now
        >>= message_of iam wire w req publisher now)) [
          | inl (why, e) ↦ rw (e, apply_ingest) refl
          | inr (m, e) ↦ rw (e, apply_ingest) (append_and_fanout-topic o m)
        ]

  pub ingest-topic :
      (o : Owner) (req : IngestRequest) (token : ℕ) (publisher : Text) (now : ℕ)
      → (Owner.ingest iam wire w o req token publisher now).0.topic ≡ o.topic
  unfolding Owner.ingest
  ingest-topic o req token publisher now =
      let cache = (Dedup.get o.dedup (Owner.dedup_key iam wire w req token) now).0 in
      ground (arith, apply_ingest-topic (record o { dedup = cache }) req publisher now)

  serve_ingest_frame-mine :
      (n : Node) (token : ℕ) (body from : Text) (now : ℕ) (o : Owner) (r : IngestReply Refusal)
      → handle_ingest iam wire w n.owner token body from now ≡ (o, some r)
      → serve_ingest_frame iam wire w words n.owner
          (record {
            topic = ingest_topic n.owner.topic;
            reply_token = some token;
            payload_hex = body;
            from = from;
          })
          now
        ≡ (o, some (token, wire.ingest_reply_to_json (worded words.refusal r)))
  unfolding serve_ingest_frame
  serve_ingest_frame-mine n token body from now o r e =
      rw (same_refl (ingest_topic n.owner.topic), e) refl

  serve_control_frame-other :
      (n : Node) (frame : Frame) (now : ℕ)
      → same frame.topic (control_topic n.owner.topic) ≡ false
      → serve_control_frame iam wire w words n frame now ≡ (n, none)
  unfolding serve_control_frame
  serve_control_frame-other n frame now e = rw e refl

  -- A frame on the ingest topic goes to the ingest handler only.
  pub serve_frame-ingest :
      (n : Node) (token : ℕ) (body from : Text) (now : ℕ) (o : Owner) (r : IngestReply Refusal)
      → handle_ingest iam wire w n.owner token body from now ≡ (o, some r)
      → serve_frame iam wire w words n
          (record {
            topic = ingest_topic n.owner.topic;
            reply_token = some token;
            payload_hex = body;
            from = from;
          })
          now
        ≡ (record n { owner = o }, (token, wire.ingest_reply_to_json (worded words.refusal r)) ∷ [])
  unfolding serve_frame
  serve_frame-ingest n token body from now o r e =
      let frame : Frame = record {
        topic = ingest_topic n.owner.topic;
        reply_token = some token;
        payload_hex = body;
        from = from;
      } in
      let first = serve_ingest_frame-mine n token body from now o r e in
      let second =
        serve_control_frame-other (record n { owner = o }) frame now
          (other_topic n.owner.topic o.topic) in
      rw (first, second) refl

  pub serve_ingest_frame-other :
      (o : Owner) (frame : Frame) (now : ℕ)
      → same frame.topic (ingest_topic o.topic) ≡ false
      → serve_ingest_frame iam wire w words o frame now ≡ (o, none)
  unfolding serve_ingest_frame
  serve_ingest_frame-other o frame now e = rw e refl

  -- A frame on the control topic goes to the control handler only, unless its token was answered.
  pub serve_frame-control :
      (n : Node) (token : ℕ) (body from : Text) (now : ℕ)
      → let (handled, old) = seen n.handled token now in
        let (o, reply) = handle_control iam wire w n.owner body from now in
        serve_frame iam wire w words n
          (record {
            topic = control_topic n.owner.topic;
            reply_token = some token;
            payload_hex = body;
            from = from;
          })
          now
        ≡ (if old then (record n { handled = handled }, []) else (
          record { owner = o; handled = handled },
          (token, wire.control_reply_to_json (worded_control words.control_refusal reply)) ∷ [],
        ))
  unfolding serve_frame serve_control_frame
  serve_frame-control n token body from now =
      let frame : Frame = record {
        topic = control_topic n.owner.topic;
        reply_token = some token;
        payload_hex = body;
        from = from;
      } in
      let first =
        serve_ingest_frame-other n.owner frame now (topic_other n.owner.topic n.owner.topic) in
      elim (Bool-cases (seen n.handled token now).1) [
        | inl old ↦ rw (first, same_refl (control_topic n.owner.topic), old) refl
        | inr new ↦ rw (first, same_refl (control_topic n.owner.topic), new) refl
      ]
