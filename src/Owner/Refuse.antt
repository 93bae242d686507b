-- ===== src/Owner/Refuse.antt =====
-- What a refused publish leaves behind.
use ce_pubsub.Prelude.{some_eq, ℕ, ◌≡◌, refl, sym, ◌⊎◌, inl, inr, some, arith, Option-cases}
use ce_pubsub.Prelude.Order.{Text}
use ce_pubsub.Prelude.Result.{Result, ok, err, ◌>>=◌, Result-cases}
use ce_pubsub.Message.{Cursor, Message}
use ce_pubsub.Log
use ce_pubsub.Dedup
use ce_pubsub.Caps.{Iam}
use ce_pubsub.Protocol.{IngestReply, Wire, IngestRequest, decode_ingest_hex}
use ce_pubsub.Owner.{
  Owner, World, Refusal, append_failed, append_and_fanout, admit_publisher, message_of,
  apply_ingest, dedup_key, ingest, handle_ingest, reply_of,
}

-- Nothing was sent out, and the log is as it was unless it was the append that failed.
abbrev pub Untouched : Owner → Owner → Refusal → Type 0
Untouched o o' why =
    (o'.live ≡ o.live)
    × (o'.subs ≡ o.subs)
    × ((o'.log ≡ o.log) ⊎ ((text : Text) × (why ≡ append_failed text)))

err_eq : {x y : Refusal} → ◌≡◌ {A = Result Refusal Cursor} (err x) (err y) → x ≡ y
err_eq h = cc

module _ (iam : Iam) (wire : Wire) (w : World) where
  append_and_fanout-Untouched :
      (o : Owner) (m : Message) (why : Refusal)
      → (append_and_fanout iam wire w o m).1 ≡ err why
      → Untouched o (append_and_fanout iam wire w o m).0 why
  unfolding append_and_fanout
  append_and_fanout-Untouched o m why h =
      let log_op = Log.append (record m { cursor = Log.next_cursor o.log }) in
      elim (Option-cases (w.propose_log o.log log_op).1) [
        | inl fine ↦ absurd (ground (arith, rw (fine, append_and_fanout) at h))
        | inr (text, failed) ↦
            rw (failed, append_and_fanout)
              (refl, refl, inr (text, sym (err_eq (rw (failed, append_and_fanout) at h))))
      ]

  apply_ingest-Untouched :
      (o : Owner) (req : IngestRequest) (publisher : Text) (now : ℕ) (why : Refusal)
      → (apply_ingest iam wire w o req publisher now).1 ≡ err why
      → Untouched o (apply_ingest iam wire w o req publisher now).0 why
  unfolding apply_ingest
  apply_ingest-Untouched o req publisher now why h =
      elim (Result-cases (
        admit_publisher iam wire w o req publisher now
        >>= message_of iam wire w req publisher now)) [
          | inl (bad, e) ↦ rw (e, apply_ingest) (refl, refl, inl refl)
          | inr (m, e) ↦
              rw (e, apply_ingest) (append_and_fanout-Untouched o m why (rw (e, apply_ingest) at h))
        ]

  reply_of-eq-rejected :
      (outcome : Result Refusal Cursor) (why : Refusal)
      → reply_of iam wire w outcome ≡ IngestReply.rejected why
      → outcome ≡ err why
  unfolding reply_of
  reply_of-eq-rejected (ok c) why h = absurd (cc)
  reply_of-eq-rejected (err bad) why h = cc

  ingest-Untouched :
      (o : Owner) (req : IngestRequest) (token : ℕ) (publisher : Text) (now : ℕ) (why : Refusal)
      → (ingest iam wire w o req token publisher now).1 ≡ IngestReply.rejected why
      → Untouched o (ingest iam wire w o req token publisher now).0 why
  unfolding ingest
  ingest-Untouched o req token publisher now why h =
      let key = dedup_key iam wire w req token in
      let o1 = record o { dedup = (Dedup.get o.dedup key now).0 } in
      elim (Option-cases (Dedup.get o.dedup key now).1) [
        | inr (seen, hit) ↦ rw (hit, ingest) (refl, refl, inl refl)
        | inl new ↦
            let outcome = (apply_ingest iam wire w o1 req publisher now).1 in
            let failed = reply_of-eq-rejected outcome why (rw (new, ingest) at h) in
            rw (new, ingest) (apply_ingest-Untouched o1 req publisher now why failed)
      ]

  -- If an ingest request is answered with a refusal, nothing went out on the live stream, the
  -- registry is as it was, and so is the log unless the refusal is that the append failed.
  pub handle_ingest-Untouched :
      (o : Owner) (token : ℕ) (payload_hex publisher : Text) (now : ℕ) (why : Refusal)
      → let (o', reply) = handle_ingest iam wire w o token payload_hex publisher now in
        reply ≡ some (IngestReply.rejected why) → Untouched o o' why
  unfolding handle_ingest
  handle_ingest-Untouched o token payload_hex publisher now why h =
      elim (Result-cases (decode_ingest_hex wire payload_hex)) [
        | inl (bad, e) ↦ rw (e, handle_ingest) (refl, refl, inl refl)
        | inr (req, e) ↦
            rw (e, handle_ingest)
              (ingest-Untouched o req token publisher now why
                (some_eq (rw (e, handle_ingest) at h)))
      ]
