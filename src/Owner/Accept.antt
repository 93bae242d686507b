-- ===== src/Owner/Accept.antt =====
-- What an accepted ingest request leaves in the log.
use ce_pubsub.Prelude.{
  ℕ, suc, ◌+◌, ◌<◌, ◌≡◌, ap, ◌∙◌, inl, inr, Bool, some, [], ◌∷◌, ◌++◌, arith, length, Option-cases,
  Bool-cases,
}
use ce_pubsub.Prelude.Words.{u64_mod}
use ce_pubsub.Prelude.Order.{Text}
use ce_pubsub.Prelude.Result.{Result, ok, err, ◌>>=◌, Result-cases, >>=-eq-ok, refuse_if}
use ce_pubsub.Message.{
  Cursor, Message, Invalid, new, authenticated, key_too_long, validate_attributes, validate_payload,
}
use ce_pubsub.Log
use ce_pubsub.Log.{TopicLog}
use ce_pubsub.Log.Invariant.{IsWellFormed, next_cursor-eq}
use ce_pubsub.Log.Append.{get-append}
use ce_pubsub.Caps.{Iam, ability_publish, or_fail, map_err}
use ce_pubsub.Protocol.{Wire, IngestRequest}
use ce_pubsub.Owner.{
  Owner, World, Applies, invalid, bad_payload_hex, no_capability, authorize, append_and_fanout,
  admit_publisher, message_of, apply_ingest,
}

map_err-eq-ok {ℓ} :
    {A : Type ℓ} {E F : Type 0} (f : E → F) (r : Result E A) {a : A} → map_err f r ≡ ok a → r ≡ ok a
map_err-eq-ok f (ok b) h = cc
map_err-eq-ok f (err e) h = absurd (cc)

module _ (iam : Iam) (wire : Wire) (w : World) where
  append_and_fanout-eq-ok :
      (o : Owner) (m : Message) (c : Cursor)
      → Applies w
      → (append_and_fanout iam wire w o m).1 ≡ ok c
      → (c ≡ Log.next_cursor o.log)
        × ((append_and_fanout iam wire w o m).0.log ≡ Log.apply o.log (Log.append m))
  unfolding append_and_fanout Log.apply
  append_and_fanout-eq-ok o m c applies e =
      let m' = record m { cursor = Log.next_cursor o.log } in
      elim (Option-cases (w.propose_log o.log (Log.append m')).1) [
        | inl fine ↦ (
          ground (arith, rw (fine, append_and_fanout) at e),
          rw (fine, append_and_fanout) (applies.log_applied o.log (Log.append m') fine),
        )
        | inr (why, failed) ↦ absurd (ground (arith, rw (failed, append_and_fanout) at e))
      ]

  -- The message that a request describes.
  abbrev pub sent : Owner → IngestRequest → Text → ℕ → Text → Cursor → Message
  sent o req publisher now payload c = record {
    cursor = c;
    publisher = publisher;
    payload_hex = wire.hex_encode payload;
    published_at = now;
    ordering_key = req.ordering_key;
    attributes = req.attributes;
    publisher_authenticated = o.require_cap;
  }

  message_of-eq-ok :
      (o : Owner) (req : IngestRequest) (publisher : Text) (now : ℕ) (m : Message)
      → message_of iam wire w req publisher now o.require_cap ≡ ok m
      → (payload : Text) × (wire.hex_decode req.payload_hex ≡ ok payload)
        × (m ≡ sent o req publisher now payload 0)
  unfolding message_of authenticated new
  message_of-eq-ok o req publisher now m e =
      let (_, _, e1) =
        >>=-eq-ok
          (refuse_if (key_too_long req.ordering_key) (invalid Invalid.ordering_key_too_long)) _ e in
      let (_, _, e2) = >>=-eq-ok (map_err invalid (validate_attributes req.attributes)) _ e1 in
      let (payload, p, e3) =
        >>=-eq-ok (map_err bad_payload_hex (wire.hex_decode req.payload_hex)) _ e2 in
      let (_, _, e4) = >>=-eq-ok (map_err invalid (validate_payload payload)) _ e3 in
      (payload, map_err-eq-ok bad_payload_hex (wire.hex_decode req.payload_hex) p, cc)

  admit_publisher-eq-ok :
      (o : Owner) (req : IngestRequest) (publisher : Text) (now : ℕ) (b : Bool)
      → admit_publisher iam wire w o req publisher now ≡ ok b
      → b ≡ o.require_cap
  unfolding admit_publisher
  admit_publisher-eq-ok o req publisher now b e = elim (Bool-cases o.require_cap) [
    | inr open_ ↦ ground (arith, open_, e)
    | inl gated ↦
        let (token, _, e1) =
          >>=-eq-ok (or_fail req.grant no_capability) _ (rw (gated, admit_publisher) at e) in
        let (_, _, e2) =
          >>=-eq-ok (authorize iam wire w o publisher ability_publish token now) _ e1 in
        ground (arith, gated, e2)
  ]

  -- An accepted request, in a log that is well formed and has a cursor left, gets the next
  -- cursor; the log then ends in the message it describes, sent by the publisher at this moment
  -- and marked as authenticated exactly if the topic requires capabilities, and the cursor finds
  -- this message. A proposal without an error is taken to have been applied.
  pub apply_ingest-eq-ok :
      (o : Owner) (req : IngestRequest) (publisher : Text) (now : ℕ) (c : Cursor)
      → Applies w
      → IsWellFormed o.log
      → o.log.floor + length o.log.messages + 1 < u64_mod
      → (apply_ingest iam wire w o req publisher now).1 ≡ ok c
      → let o' = (apply_ingest iam wire w o req publisher now).0 in
        (payload : Text) × (wire.hex_decode req.payload_hex ≡ ok payload)
        × (c ≡ suc (o.log.floor + length o.log.messages))
        × (Log.get o'.log c ≡ some (sent o req publisher now payload c))
        × (o'.log.messages ≡ o.log.messages ++ sent o req publisher now payload c ∷ [])
  unfolding apply_ingest Log.apply
  apply_ingest-eq-ok o req publisher now c applies v room e =
      elim (Result-cases (
        admit_publisher iam wire w o req publisher now
        >>= message_of iam wire w req publisher now)) [
          | inl (why, bad) ↦ absurd (ground (arith, rw (bad, apply_ingest) at e))
          | inr (m, good) ↦
              let (b, admit, describes) =
                >>=-eq-ok (admit_publisher iam wire w o req publisher now) _ good in
              let b_eq = admit_publisher-eq-ok o req publisher now b admit in
              let (payload, decoded, m_eq) =
                message_of-eq-ok o req publisher now m (rw b_eq at describes) in
              let (c_eq, log) =
                append_and_fanout-eq-ok o m c applies (rw (good, apply_ingest) at e) in
              rw (good, apply_ingest)
                (
                  payload,
                  decoded,
                  c_eq ∙ next_cursor-eq v room,
                  rw (log, c_eq)
                      (get-append m v room
                        ∙ ap (λ (x : Message). some (record x { cursor = Log.next_cursor o.log }))
                            m_eq),
                  rw (log, c_eq)
                      (ap
                        (λ (x : Message).
                          o.log.messages ++ record x { cursor = Log.next_cursor o.log } ∷ [])
                        m_eq),
                )
        ]
