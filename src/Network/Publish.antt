-- ===== src/Network/Publish.antt =====
-- A remote publish from end to end: the client's call, the owner's loops and the reply.
use ce_pubsub.Prelude.{
  ℕ, suc, ◌+◌, ◌<◌, ◌≡◌, refl, sym, ap, ◌∙◌, inl, inr, Option, none, some, [], ◌∷◌, ◌++◌, arith,
  length, Option-cases,
}
use mathlib.Core.Option
use ce_pubsub.Prelude.Words.{u64_mod}
use ce_pubsub.Prelude.Order.{Text}
use ce_pubsub.Prelude.Result.{Result, ok, err, ok-eq, Result-cases}
use ce_pubsub.Message.{Message, Cursor, PublishOptions}
use ce_pubsub.Log
use ce_pubsub.Log.{TopicLog}
use ce_pubsub.Log.Invariant.{IsWellFormed}
use ce_pubsub.Dedup
use ce_pubsub.Caps.{Iam}
use ce_pubsub.Protocol.{Wire, IngestReply, IngestRequest, decode_ingest, decode_ingest_hex}
use ce_pubsub.Protocol.Decode
use ce_pubsub.Owner
use ce_pubsub.Owner.{
  Owner, World, Applies, Refusal, handle_ingest, apply_ingest, dedup_key, bad_request, reply_of,
  seen_of,
}
use ce_pubsub.Owner.Ingest.{ingest_new, handle_ingest-replies}
use ce_pubsub.Owner.Accept.{sent, apply_ingest-eq-ok}
use ce_pubsub.Owner.Serve.{Words, Node, worded}
use ce_pubsub.Client.Remote.{
  ClientError, published, after_checks, ingest_request, send_publish, publish_to_with,
}
use ce_pubsub.Network.{Net, Faithful, direct}
use ce_pubsub.Network.Frames.{serve_frame-ingest}

-- A body that decodes is the request that was encoded.
decode_ingest_hex-eq :
    (wire : Wire) (laws : Decode.ReadsBack wire) (req got : IngestRequest)
    → decode_ingest_hex wire (wire.hex_encode (wire.ingest_to_json req)) ≡ ok got
    → got ≡ req
unfolding decode_ingest_hex decode_ingest
decode_ingest_hex-eq wire laws req got e =
    let hex = laws.hex (wire.ingest_to_json req) (laws.json_bytes req) in
    let json = laws.ingest req in ground (arith, e, hex, json)

published-worded :
    (f : Refusal → Text) (r : IngestReply Refusal) (c : Cursor)
    → published (worded f r) ≡ ok c
    → r ≡ IngestReply.accepted c
unfolding published worded
published-worded f (IngestReply.accepted k) c e = cc
published-worded f (IngestReply.rejected why) c e = absurd (cc)

pub after_checks-again {ℓ} :
    {S : Type 0} {A : Type ℓ} (checks : Result ClientError (Unit {0})) (s t : S)
    (call call' : S × Result ClientError A) (a : A)
    → (after_checks checks s call).1 ≡ ok a
    → after_checks checks t call' ≡ call'
unfolding after_checks
after_checks-again (err why) s t call call' a e = absurd (cc)
after_checks-again (ok u) s t call call' a e = refl

reply_of-eq-accepted :
    (iam : Iam) (wire : Wire) (w : World) (outcome : Result Refusal Cursor) (c : Cursor)
    → reply_of iam wire w outcome ≡ IngestReply.accepted c
    → outcome ≡ ok c
unfolding reply_of
reply_of-eq-accepted iam wire w (ok k) c e = cc
reply_of-eq-accepted iam wire w (err why) c e = absurd (cc)

pub after_checks-eq-ok {ℓ} :
    {S : Type 0} {A : Type ℓ} (checks : Result ClientError (Unit {0})) (s : S)
    (call : S × Result ClientError A) (a : A)
    → (after_checks checks s call).1 ≡ ok a
    → after_checks checks s call ≡ call
unfolding after_checks
after_checks-eq-ok (err why) s call a e = absurd (cc)
after_checks-eq-ok (ok u) s call a e = refl

-- The client's message as the owner's log should hold it.
abbrev pub delivered : Wire → Text → ℕ → Node → PublishOptions → Text → Cursor → Message
delivered wire me now n opts payload c = record {
  cursor = c;
  publisher = me;
  payload_hex = wire.hex_encode payload;
  published_at = now;
  ordering_key = opts.ordering_key;
  attributes = opts.attributes;
  publisher_authenticated = n.owner.require_cap;
}

module _ (iam : Iam) (wire : Wire) (w : World) (words : Words) (laws : Faithful wire) (me : Text)
    (now : ℕ) where
  -- What the client makes of the owner's reply.
  pub send_publish-direct :
      (n : Node) (k : ℕ) (owner : Text) (req : IngestRequest) (timeout_ms : ℕ) (o : Owner)
      (r : IngestReply Refusal)
      → handle_ingest iam wire w n.owner k (wire.hex_encode (wire.ingest_to_json req)) me now
        ≡ (o, some r)
      → send_publish wire (direct iam wire w words me now) (n, k) n.owner.topic owner req timeout_ms
        ≡ ((record n { owner = o }, suc k), published (worded words.refusal r))
  unfolding send_publish
  send_publish-direct n k owner req timeout_ms o r e =
      let body = wire.hex_encode (wire.ingest_to_json req) in
      let served = serve_frame-ingest iam wire w words n k body me now o r e in
      rw (served, laws.replies (worded words.refusal r)) refl

  -- A publish that returns a cursor has been handled, and accepted under it.
  pub publish_to_with-eq-ok :
      (n : Node) (k : ℕ) (owner payload : Text) (grant : Option Text) (opts : PublishOptions)
      (key : Option Text) (timeout_ms : ℕ) (c : Cursor)
      → let req = ingest_request wire payload grant opts key in
        let body = wire.hex_encode (wire.ingest_to_json req) in
        let mesh = direct iam wire w words me now in
        let (s', out) =
          publish_to_with wire mesh (n, k) n.owner.topic owner payload grant opts key timeout_ms in
        out ≡ ok c
        → (o : Owner) × (handle_ingest iam wire w n.owner k body me now
            ≡ (o, some (IngestReply.accepted c)))
          × (s' ≡ (record n { owner = o }, suc k))
  unfolding publish_to_with
  publish_to_with-eq-ok n k owner payload grant opts key timeout_ms c e =
      let req = ingest_request wire payload grant opts key in
      let body = wire.hex_encode (wire.ingest_to_json req) in
      let mesh = direct iam wire w words me now in
      let call = send_publish wire mesh (n, k) n.owner.topic owner req timeout_ms in
      let sent_ = after_checks-eq-ok _ (n, k) call c e in
      elim (Option-cases (handle_ingest iam wire w n.owner k body me now).1) [
        | inl silent ↦ absurd (handle_ingest-replies iam wire w n.owner k body me now silent)
        | inr (r, answered) ↦
            let o = (handle_ingest iam wire w n.owner k body me now).0 in
            let direct_ = send_publish-direct n k owner req timeout_ms o r (λ i. (o, answered i)) in
            let taken : published (worded words.refusal r) ≡ ok c =
              sym (ap (λ (x : Net × Result ClientError Cursor). x.1) (sent_ ∙ direct_)) ∙ e in
            let r_eq = published-worded words.refusal r c taken in
            (
              o,
              λ i. (o, (answered ∙ ap some r_eq) i),
              ap (λ (x : Net × Result ClientError Cursor). x.0) (sent_ ∙ direct_),
            )
      ]

  -- An accepted body is the request that was encoded, and it went through the ingest path.
  pub handle_ingest-accepted :
      (o o' : Owner) (k : ℕ) (req : IngestRequest) (c : Cursor)
      → handle_ingest iam wire w o k (wire.hex_encode (wire.ingest_to_json req)) me now
        ≡ (o', some (IngestReply.accepted c))
      → (decode_ingest_hex wire (wire.hex_encode (wire.ingest_to_json req)) ≡ ok req)
        × (Owner.ingest iam wire w o req k me now ≡ (o', IngestReply.accepted c))
  unfolding handle_ingest
  handle_ingest-accepted o o' k req c e =
      let body = wire.hex_encode (wire.ingest_to_json req) in
      elim (Result-cases (decode_ingest_hex wire body)) [
        | inl (why, bad) ↦ absurd (ground (arith, rw (bad, handle_ingest) at e))
        | inr (got, good) ↦
            let same_ = decode_ingest_hex-eq wire laws.requests req got good in
            let read = good ∙ ap ok same_ in
            (
              read,
              ap
                  (λ (x : Owner × Option (IngestReply Refusal)).
                    (x.0, Option.get_or x.1 (IngestReply.accepted c)))
                  (rw (read, handle_ingest) at e),
            )
      ]

  -- A remote publish that returns a cursor, on a mesh that takes the client's frame to the
  -- owner's loops and the reply back: if the encodings can be read back, a proposal without an
  -- error is applied, the owner's log is well formed and has a cursor left, the payload consists
  -- of bytes and the key of the request is not in the owner's cache, then the cursor is the next
  -- one, and the log holds, under it and at its end, a message of this client with its payload,
  -- ordering key and attributes, marked as authenticated exactly if the topic requires
  -- capabilities.
  pub publish_arrives :
      (n : Node) (k : ℕ) (owner payload : Text) (grant : Option Text) (opts : PublishOptions)
      (key : Option Text) (timeout_ms : ℕ) (c : Cursor)
      → Applies w
      → IsWellFormed n.owner.log
      → n.owner.log.floor + length n.owner.log.messages + 1 < u64_mod
      → Decode.IsBytes payload
      → let req = ingest_request wire payload grant opts key in
        let mesh = direct iam wire w words me now in
        let (s', out) =
          publish_to_with wire mesh (n, k) n.owner.topic owner payload grant opts key timeout_ms in
        let m = delivered wire me now n opts payload c in
        let log = s'.0.owner.log in
        (Dedup.get n.owner.dedup (dedup_key iam wire w req k) now).1 ≡ none
        → out ≡ ok c
        → (c ≡ suc (n.owner.log.floor + length n.owner.log.messages))
          × (Log.get log c ≡ some m)
          × (log.messages ≡ n.owner.log.messages ++ m ∷ [])
  unfolding ingest_request
  publish_arrives n k owner payload grant opts key timeout_ms c applies v room bytes fresh e =
      let req = ingest_request wire payload grant opts key in
      let (o, handled, after) =
        publish_to_with-eq-ok n k owner payload grant opts key timeout_ms c e in
      let (_, taken) = handle_ingest-accepted n.owner o k req c handled in
      let cache = (Dedup.get n.owner.dedup (dedup_key iam wire w req k) now).0 in
      let o1 = record n.owner { dedup = cache } in
      let new = ingest_new iam wire w n.owner req k me now fresh in
      let split = sym new ∙ taken in
      let outcome = (apply_ingest iam wire w o1 req me now).1 in
      let done =
        reply_of-eq-accepted iam wire w outcome c
          (ap (λ (x : Owner × IngestReply Refusal). x.1) split) in
      let kept : (apply_ingest iam wire w o1 req me now).0.log ≡ o.log =
        ap (λ (x : Owner × IngestReply Refusal). x.0.log) split in
      let (payload', decoded, c_eq, found, log) =
        apply_ingest-eq-ok iam wire w o1 req me now c applies v room done in
      let same_ : payload' ≡ payload = ok-eq (sym decoded ∙ laws.requests.hex payload bytes) in
      let log_eq = ap (λ (x : Net). x.0.owner.log) after ∙ sym kept in
      (
        c_eq,
        rw log_eq (found ∙ ap (λ text. some (sent iam wire w n.owner req me now text c)) same_),
        rw log_eq (
            log
            ∙ ap (λ text. n.owner.log.messages ++ sent iam wire w n.owner req me now text c ∷ [])
                same_),
      )
