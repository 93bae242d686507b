-- ===== src/Network/Retry.antt =====
-- A remote publish that is sent twice.
use ce_pubsub.Prelude.{ℕ, suc, ◌≡◌, refl, sym, ap, subst, ◌∙◌, false, Option, none, some, arith}
use ce_pubsub.Prelude.Order.{Text, codes}
use ce_pubsub.Prelude.Result.{Result, ok, err}
use ce_pubsub.Message.{Cursor, PublishOptions}
use ce_pubsub.Dedup
use ce_pubsub.Dedup.{IdempotencyCache, expired}
use ce_pubsub.Caps.{Iam}
use ce_pubsub.Protocol.{Wire, IngestReply, IngestRequest}
use ce_pubsub.Owner
use ce_pubsub.Owner.{Owner, World, Refusal, handle_ingest, dedup_key}
use ce_pubsub.Owner.Ingest.{answer_again, ingest-ingest}
use ce_pubsub.Owner.Serve.{Words, Node, worded}
use ce_pubsub.Client.Remote.{
  ClientError, unreachable, published, ingest_request, send_publish, publish_to_with,
}
use ce_pubsub.Network.{Net, Faithful, direct, unheard}
use ce_pubsub.Network.Frames.{ingest-topic}
use ce_pubsub.Network.Publish.{
  after_checks-again, after_checks-eq-ok, publish_to_with-eq-ok, handle_ingest-accepted,
  send_publish-direct,
}

get-ttl_secs :
    (c : IdempotencyCache) (key : Text) (now : ℕ) → (Dedup.get c key now).0.ttl_secs ≡ c.ttl_secs
unfolding Dedup.get
get-ttl_secs c key now = ground arith

module _ (iam : Iam) (wire : Wire) (w : World) (words : Words) (laws : Faithful wire) (me : Text)
    (n : Node) (k now later : ℕ) where
  -- The second body, handled by the owner that the first one left.
  handle_ingest-again :
      (o : Owner) (req : IngestRequest) (key : Text) (c : Cursor)
      → req.idempotency_key ≡ some key
      → (Dedup.get n.owner.dedup key now).1 ≡ none
      → expired n.owner.dedup.ttl_secs later now ≡ false
      → let body = wire.hex_encode (wire.ingest_to_json req) in
        handle_ingest iam wire w n.owner k body me now ≡ (o, some (IngestReply.accepted c))
        → (handle_ingest iam wire w o (suc k) body me later ≡ (o, some (IngestReply.accepted c)))
          × (o.topic ≡ n.owner.topic)
  unfolding handle_ingest dedup_key answer_again ingest_request
  handle_ingest-again o req key c keyed fresh live handled =
      let (read, taken) =
        handle_ingest-accepted iam wire w words laws me now n.owner o k req c handled in
      let ttl = get-ttl_secs n.owner.dedup (dedup_key iam wire w req k) now in
      let again =
        ingest-ingest iam wire w n.owner req req k (suc k) me me now later
          (rw (keyed, dedup_key) fresh) (rw (keyed, dedup_key) refl) (rw ttl live) in
      let kept : Owner.ingest iam wire w o req (suc k) me later ≡ (o, IngestReply.accepted c) =
        rw taken at again in
      (
        rw (read, handle_ingest) (ap (λ (x : Owner × IngestReply Refusal). (x.0, some x.1)) kept),
        sym (ap (λ (x : Owner × IngestReply Refusal). x.0.topic) taken)
            ∙ ingest-topic iam wire w words n.owner req k me now,
      )

  -- A publish under an idempotency key that was not in the owner's cache and that returned a
  -- cursor, sent a second time with the same arguments while the entry lives and before anything
  -- else: if the encodings can be read back, it returns the same cursor, and the owner is left
  -- exactly as the first left it.
  publish_retry :
      (owner payload : Text) (grant : Option Text) (opts : PublishOptions) (key : Text)
      (timeout_ms timeout_ms' : ℕ) (c : Cursor)
      → let topic = n.owner.topic in
        let first = direct iam wire w words me now in
        let second = direct iam wire w words me later in
        let (s', out) =
          publish_to_with wire first (n, k) topic owner payload grant opts (some key) timeout_ms in
        (Dedup.get n.owner.dedup key now).1 ≡ none
        → expired n.owner.dedup.ttl_secs later now ≡ false
        → out ≡ ok c
        → publish_to_with wire second s' topic owner payload grant opts (some key) timeout_ms'
          ≡ ((s'.0, suc s'.1), ok c)
  unfolding publish_to_with published worded ingest_request
  publish_retry owner payload grant opts key timeout_ms timeout_ms' c fresh live e =
      let req = ingest_request wire payload grant opts (some key) in
      let (o, handled, after) =
        publish_to_with-eq-ok iam wire w words laws me now n k owner payload grant opts (some key)
          timeout_ms c e in
      let (again, topic_eq) = handle_ingest-again o req key c refl fresh live handled in
      let n' : Node = record n { owner = o } in
      let sent_ =
        send_publish-direct iam wire w words laws me later n' (suc k) owner req timeout_ms' o
          (IngestReply.accepted c) again in
      let first = direct iam wire w words me now in
      let second = direct iam wire w words me later in
      let call = send_publish wire first (n, k) n.owner.topic owner req timeout_ms in
      let call' = send_publish wire second (n', suc k) n.owner.topic owner req timeout_ms' in
      rw after (
        after_checks-again _ (n, k) (n', suc k) call call' c e
        ∙ subst
            (λ topic.
              send_publish wire second (n', suc k) topic owner req timeout_ms'
              ≡ ((n', suc (suc k)), ok c))
            topic_eq sent_)

  -- A publish under an idempotency key that is not in the owner's cache, of which the reply is
  -- lost, where it would have been a cursor: if the encodings can be read back, the client is
  -- told of a timeout, and the same publish sent again, while the entry lives and before anything
  -- else, returns that cursor and leaves the owner exactly as the first left it.
  pub publish_retry_unheard :
      (owner payload : Text) (grant : Option Text) (opts : PublishOptions) (key : Text)
      (timeout_ms timeout_ms' : ℕ) (c : Cursor)
      → let topic = n.owner.topic in
        let first = direct iam wire w words me now in
        let lost = unheard iam wire w words me now in
        let second = direct iam wire w words me later in
        let (s', out) =
          publish_to_with wire first (n, k) topic owner payload grant opts (some key) timeout_ms in
        (Dedup.get n.owner.dedup key now).1 ≡ none
        → expired n.owner.dedup.ttl_secs later now ≡ false
        → out ≡ ok c
        → (publish_to_with wire lost (n, k) topic owner payload grant opts (some key) timeout_ms
            ≡ (s', err (unreachable (codes "timeout"))))
          × (publish_to_with wire second s' topic owner payload grant opts (some key) timeout_ms'
              ≡ ((s'.0, suc s'.1), ok c))
  unfolding publish_to_with send_publish
  publish_retry_unheard owner payload grant opts key timeout_ms timeout_ms' c fresh live e =
      let req = ingest_request wire payload grant opts (some key) in
      let call =
        send_publish wire (direct iam wire w words me now) (n, k) n.owner.topic owner req
          timeout_ms in
      let call' =
        send_publish wire (unheard iam wire w words me now) (n, k) n.owner.topic owner req
          timeout_ms in
      let heard = after_checks-eq-ok _ (n, k) call c e in
      (
        after_checks-again _ (n, k) (n, k) call call' c e
            ∙ ap (λ (s : Net). (s, err (unreachable (codes "timeout"))))
                (sym (ap (λ (x : Net × Result ClientError Cursor). x.0) heard)),
        publish_retry owner payload grant opts key timeout_ms timeout_ms' c fresh live e,
      )
