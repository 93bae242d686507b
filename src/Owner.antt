-- ===== src/Owner.antt =====
-- src/lib.rs, the owner's side: the state behind a `Topic` handle, the ingest handler and the
-- control handler. Handlers run one after the other on this state, as the code awaits each; Race has
-- the publishes that overlap.
pub mod Authorize
pub mod Admit
pub mod Ingest
pub mod Serve
pub mod Topic
pub mod Sound
pub mod Refuse
pub mod Accept
pub mod Control
pub mod Race
use ce_pubsub.Prelude.{
  ℕ, suc, ◌+◌, ◌≡◌, Bool, true, false, not, ◌&&◌, ◌||◌, Option, none, some, List, [], ◌∷◌, ◌++◌,
  ltb, ◌==◌, if◌then◌else◌, length,
}
use mathlib.Core.Option
use ce_pubsub.Prelude.Order.{Text, codes, same, text_order}
use ce_pubsub.Prelude.Text.{trim, decimal}
use ce_pubsub.Prelude.Map.{Map}
use ce_pubsub.Prelude.Result.{Result, ok, err, ◌>>=◌, ◌>>◌, refuse_if}
use ce_pubsub.Message.{
  Cursor, Message, PublishOptions, Invalid, new, authenticated, key_too_long, validate_attributes,
  validate_payload, validate_options,
}
use ce_pubsub.Log
use ce_pubsub.Log.{TopicLog, LogOp}
use ce_pubsub.Dedup
use ce_pubsub.Dedup.{Seen, IdempotencyCache}
use ce_pubsub.Subscription.{SubRegistry, SubOp}
use ce_pubsub.Caps.{NodeId, Iam, LinkError, ability_publish, map_err, or_fail, verify_link}
use ce_pubsub.Protocol.IngestReply.{accepted, rejected}
use ce_pubsub.Protocol.{IngestReply, Wire, DecodeError, IngestRequest, decode_ingest_hex}

abbrev pub dedup_capacity : ℕ
dedup_capacity = 16_384

abbrev pub dedup_ttl_secs : ℕ
dedup_ttl_secs = 3_600

-- `TopicInner`, with the messages that went out on the live stream and on that of the dead letters.
pub record Owner : Type 0 where
  pub node_id : Text
  pub topic : Text
  pub log : TopicLog
  pub subs : SubRegistry
  pub live : List Message
  pub dead_letters : List Message
  pub accepted_roots : List NodeId
  pub require_cap : Bool
  pub dedup : IdempotencyCache

-- What the node does during one call: `propose` on the two replicated logs, with the state
-- afterwards and the error if there is one; whether a message goes out on a stream; and the answer
-- to the query for revoked capabilities.
pub record World : Type 0 where
  pub propose_log : TopicLog → LogOp → TopicLog × Option Text
  pub propose_subs : SubRegistry → SubOp → SubRegistry × Option Text
  pub live_publish : Message → Bool
  pub dead_letter_stream : Bool
  pub dead_letter_publish : Message → Bool
  pub revoked : Result Text (List (Text × ℕ))

-- What the code relies on: a proposal without an error has been applied.
pub record Applies (w : World) : Type 0 where
  pub log_applied :
      (l : TopicLog) (op : LogOp)
      → (w.propose_log l op).1 ≡ none
      → (w.propose_log l op).0 ≡ Log.apply l op

pub data Refusal : Type 0 where
  bad_request : DecodeError → Refusal
  duplicate_request no_capability bad_node_id : Refusal
  no_revocation_set : Text → Refusal
  bad_link : LinkError → Refusal
  invalid : Invalid → Refusal
  bad_payload_hex append_failed : Text → Refusal

module _ (iam : Iam) (wire : Wire) (w : World) where
  -- `parse_node_id`: 32 bytes in hex.
  unfoldable pub parse_node_id : Text → Option NodeId
  parse_node_id hex_id = elim (wire.hex_decode (trim hex_id)) [
    | err e ↦ none
    | ok bytes ↦ if length bytes == 32 then some bytes else none
  ]

  -- The `filter_map` of `fetch_revoked`.
  unfoldable pub parse_all : List (Text × ℕ) → List (NodeId × ℕ)
  parse_all [] = []
  parse_all ((issuer, nonce) ∷ set) = elim (parse_node_id issuer) [
    | none ↦ parse_all set
    | some id ↦ (id, nonce) ∷ parse_all set
  ]

  unfoldable pub is_revoked : List (NodeId × ℕ) → NodeId → ℕ → Bool
  is_revoked [] issuer nonce = false
  is_revoked ((i, n) ∷ set) issuer nonce =
      (same i issuer && n == nonce) || is_revoked set issuer nonce

  -- `Topic::authorize`
  unfoldable pub authorize : Owner → Text → Text → Text → ℕ → Result Refusal (Unit {0})
  authorize o requester_hex ability token now = do
    requester ← or_fail (parse_node_id requester_hex) bad_node_id
    self_id ← or_fail (parse_node_id o.node_id) bad_node_id
    set ← map_err no_revocation_set w.revoked
    map_err bad_link (
        verify_link iam self_id o.accepted_roots [] now requester ability o.topic token
          (is_revoked (parse_all set)))

  -- `Topic::append_and_fanout`
  unfoldable pub append_and_fanout : Owner → Message → Owner × Result Refusal Cursor
  append_and_fanout o msg =
      let cursor = Log.next_cursor o.log in
      let m = record msg { cursor = cursor } in
      let (log, failure) = w.propose_log o.log (Log.append m) in
      elim failure [
        | some why ↦ (record o { log = log }, err (append_failed why))
        | none ↦ (
          record o { log = log; live = if w.live_publish m then o.live ++ m ∷ [] else o.live },
          ok cursor,
        )
      ]

  -- The first half of `apply_ingest`: whether the publisher is authenticated.
  unfoldable pub admit_publisher : Owner → IngestRequest → Text → ℕ → Result Refusal Bool
  unfolding authorize
  admit_publisher o req publisher now =
      if o.require_cap
      then (do
        token ← or_fail req.grant no_capability
        authorize o publisher ability_publish token now
        ok true)
      else ok false

  -- The middle part: the message that a valid request describes.
  unfoldable pub message_of : IngestRequest → Text → ℕ → Bool → Result Refusal Message
  message_of req publisher now is_authenticated = do
    refuse_if (key_too_long req.ordering_key) (invalid Invalid.ordering_key_too_long)
    map_err invalid (validate_attributes req.attributes)
    payload ← map_err bad_payload_hex (wire.hex_decode req.payload_hex)
    map_err invalid (validate_payload payload)
    ok (record (authenticated (new wire.hex_encode 0 publisher payload now) is_authenticated) {
      ordering_key = req.ordering_key;
      attributes = req.attributes;
    })

  -- `Topic::apply_ingest`
  unfoldable pub apply_ingest : Owner → IngestRequest → Text → ℕ → Owner × Result Refusal Cursor
  apply_ingest o req publisher now =
      elim (admit_publisher o req publisher now >>= message_of req publisher now) [
        | err why ↦ (o, err why)
        | ok msg ↦ append_and_fanout o msg
      ]

  -- `req.idempotency_key.unwrap_or_else(|| format!("tok:{token}"))`
  unfoldable pub dedup_key : IngestRequest → ℕ → Text
  dedup_key req token = Option.get_or req.idempotency_key (codes "tok:" ++ decimal token)

  -- What a duplicate is answered.
  unfoldable pub reply_to_seen : Seen → IngestReply Refusal
  reply_to_seen (Dedup.cursor c) = accepted c
  reply_to_seen Dedup.handled = rejected duplicate_request

  unfoldable pub seen_of : Result Refusal Cursor → Seen
  seen_of (ok c) = Dedup.cursor c
  seen_of (err why) = Dedup.handled

  unfoldable pub reply_of : Result Refusal Cursor → IngestReply Refusal
  reply_of (ok c) = accepted c
  reply_of (err why) = rejected why

  -- `handle_ingest` behind the decoding of the request.
  unfoldable pub ingest : Owner → IngestRequest → ℕ → Text → ℕ → Owner × IngestReply Refusal
  ingest o req token publisher now =
      let key = dedup_key req token in
      let (cache, found) = Dedup.get o.dedup key now in
      let o1 = record o { dedup = cache } in
      elim found [
        | some seen ↦ (o1, reply_to_seen seen)
        | none ↦
            let (o2, outcome) = apply_ingest o1 req publisher now in
            (
              record o2 { dedup = Dedup.record_seen o2.dedup key (seen_of outcome) now },
              reply_of outcome,
            )
      ]

  -- `Topic::handle_ingest`
  unfoldable pub handle_ingest : Owner → ℕ → Text → Text → ℕ → Owner × Option (IngestReply Refusal)
  unfolding ingest
  handle_ingest o token payload_hex publisher now = elim (decode_ingest_hex wire payload_hex) [
    | err e ↦ (o, some (rejected (bad_request e)))
    | ok req ↦ let (o', reply) = ingest o req token publisher now in (o', some reply)
  ]

  -- `Topic::publish_with`
  unfoldable pub publish_with : Owner → Text → PublishOptions → ℕ → Owner × Result Refusal Cursor
  publish_with o payload opts now =
      elim (map_err invalid (validate_payload payload >> validate_options opts)) [
        | err why ↦ (o, err why)
        | ok done ↦
            append_and_fanout o
              (record (authenticated (new wire.hex_encode 0 o.node_id payload now) true) {
                ordering_key = opts.ordering_key;
                attributes = opts.attributes;
              })
      ]
