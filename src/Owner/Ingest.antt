-- ===== src/Owner/Ingest.antt =====
-- What the ingest handler promises to a remote publisher.
use ce_pubsub.Prelude.{ℕ, ◌≡◌, ◌≢◌, refl, ap, inl, inr, false, none, some, arith}
use ce_pubsub.Prelude.Order.{Text}
use ce_pubsub.Prelude.Result.{Result, ok, err, ◌>>=◌, Result-cases}
use ce_pubsub.Message.{Cursor, Message}
use ce_pubsub.Dedup
use ce_pubsub.Dedup.{Seen, expired}
use ce_pubsub.Dedup.Recall.{get-record_seen}
use ce_pubsub.Caps.{Iam}
use ce_pubsub.Protocol.IngestReply.{accepted, rejected}
use ce_pubsub.Protocol.{IngestReply, Wire, IngestRequest}
use ce_pubsub.Owner.{
  Owner, World, Refusal, duplicate_request, append_and_fanout, admit_publisher, message_of,
  apply_ingest, dedup_key, reply_to_seen, seen_of, reply_of, ingest, handle_ingest,
}

-- The answer to a request whose key was seen.
unfoldable pub answer_again : IngestReply Refusal → IngestReply Refusal
answer_again (accepted c) = accepted c
answer_again (rejected why) = rejected duplicate_request

module _ (iam : Iam) (wire : Wire) (w : World) where
  append_and_fanout-dedup :
      (o : Owner) (m : Message) → (append_and_fanout iam wire w o m).0.dedup ≡ o.dedup
  unfolding append_and_fanout
  append_and_fanout-dedup o m = ground arith

  apply_ingest-dedup :
      (o : Owner) (req : IngestRequest) (publisher : Text) (now : ℕ)
      → (apply_ingest iam wire w o req publisher now).0.dedup ≡ o.dedup
  unfolding apply_ingest
  apply_ingest-dedup o req publisher now =
      elim (Result-cases (
        admit_publisher iam wire w o req publisher now
        >>= message_of iam wire w req publisher now)) [
          | inl (why, e) ↦ rw (e, apply_ingest) refl
          | inr (m, e) ↦ rw (e, apply_ingest) (append_and_fanout-dedup o m)
        ]

  -- Every ingest request is answered, also one whose token was answered before.
  pub handle_ingest-replies :
      (o : Owner) (token : ℕ) (payload_hex publisher : Text) (now : ℕ)
      → (handle_ingest iam wire w o token payload_hex publisher now).1 ≢ none
  unfolding handle_ingest
  handle_ingest-replies o token payload_hex publisher now h = ground (arith, h)

  answer_again-reply_of :
      (outcome : Result Refusal Cursor)
      → answer_again (reply_of iam wire w outcome)
        ≡ reply_to_seen iam wire w (seen_of iam wire w outcome)
  unfolding answer_again reply_to_seen seen_of reply_of
  answer_again-reply_of (ok c) = refl
  answer_again-reply_of (err why) = refl

  -- A request whose key is not in the cache is applied, and its outcome recorded.
  pub ingest_new :
      (o : Owner) (req : IngestRequest) (token : ℕ) (publisher : Text) (now : ℕ)
      → (Dedup.get o.dedup (dedup_key iam wire w req token) now).1 ≡ none
      → let (cache, found) = Dedup.get o.dedup (dedup_key iam wire w req token) now in
        let (o', outcome) =
          apply_ingest iam wire w (record o { dedup = cache }) req publisher now in
        ingest iam wire w o req token publisher now ≡ (
          record o' {
            dedup =
                Dedup.record_seen cache
                  (dedup_key iam wire w req token)
                  (seen_of iam wire w outcome)
                  now;
          },
          reply_of iam wire w outcome,
        )
  unfolding ingest
  ingest_new o req token publisher now new =
      let cache = (Dedup.get o.dedup (dedup_key iam wire w req token) now).0 in
      rw (new, ingest, apply_ingest-dedup (record o { dedup = cache }) req publisher now) refl

  -- A request whose key is in the cache is answered from it.
  ingest_seen :
      (o : Owner) (req : IngestRequest) (token : ℕ) (publisher : Text) (now : ℕ) (seen : Seen)
      → Dedup.get o.dedup (dedup_key iam wire w req token) now ≡ (o.dedup, some seen)
      → ingest iam wire w o req token publisher now ≡ (o, reply_to_seen iam wire w seen)
  unfolding ingest
  ingest_seen o req token publisher now seen hit =
      rw (ap (λ r. r.1) hit, ingest)
        (ap (λ r. (record o { dedup = r.0 }, reply_to_seen iam wire w seen)) hit)

  -- After a request whose key was not in the cache, any request with the same key, from whatever
  -- publisher and with whatever content, changes nothing while the key lives: it is answered with
  -- the first cursor if the first request was accepted, and refused as a duplicate if that was
  -- refused.
  pub ingest-ingest :
      (o : Owner) (req again : IngestRequest) (token token' : ℕ) (publisher publisher' : Text)
      (now later : ℕ)
      → (Dedup.get o.dedup (dedup_key iam wire w req token) now).1 ≡ none
      → dedup_key iam wire w again token' ≡ dedup_key iam wire w req token
      → expired (Dedup.get o.dedup (dedup_key iam wire w req token) now).0.ttl_secs later now
        ≡ false
      → let (o', reply) = ingest iam wire w o req token publisher now in
        ingest iam wire w o' again token' publisher' later ≡ (o', answer_again reply)
  ingest-ingest o req again token token' publisher publisher' now later new same_key live =
      let key = dedup_key iam wire w req token in
      let cache = (Dedup.get o.dedup key now).0 in
      let (o', outcome) = apply_ingest iam wire w (record o { dedup = cache }) req publisher now in
      let s = seen_of iam wire w outcome in
      let o2 = record o' { dedup = Dedup.record_seen cache key s now } in
      let hit =
        ingest_seen o2 again token' publisher' later s
          (rw same_key (get-record_seen cache key s now later live)) in
      rw (ingest_new o req token publisher now new, answer_again-reply_of outcome) hit
