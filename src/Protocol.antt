-- ===== src/Protocol.antt =====
-- src/protocol.rs: the requests and replies between a client and a topic owner. The JSON encoding
-- (serde) and the crate `hex` are parameters.
pub mod Decode
use ce_pubsub.Prelude.{ℕ, Bool, false, Option, none, some, List, ltb, if◌then◌else◌, length}
use ce_pubsub.Prelude.Order.{Text}
use ce_pubsub.Prelude.Map.{Map}
use ce_pubsub.Prelude.Result.{Result, ok, err, ◌>>=◌, ◌>>◌, refuse_if}
use ce_pubsub.Message.{Cursor, Message}
use ce_pubsub.Subscription.{SubscriptionPolicy}
use ce_pubsub.Caps.{map_err}

abbrev pub max_control_body_bytes : ℕ
max_control_body_bytes = 65_536

-- 2 * MAX_PAYLOAD_BYTES + 64 * 1024
abbrev pub max_ingest_hex_bytes : ℕ
max_ingest_hex_bytes = 21_037_056

abbrev pub max_idempotency_key_len : ℕ
max_idempotency_key_len = 256

pub record IngestRequest : Type 0 where
  pub payload_hex : Text
  pub grant : Option Text
  pub idempotency_key : Option Text
  pub ordering_key : Option Text
  pub attributes : Map Text Text

pub data ControlRequest : Type 0 where
  create_subscription : Text → SubscriptionPolicy → Option Text → ControlRequest
  delete_subscription : Text → Option Text → ControlRequest
  list_subscriptions : Option Text → ControlRequest
  high_cursor : Option Text → ControlRequest
  pull : Text → ℕ → Option Text → ControlRequest
  ack : Text → Cursor → Option Text → ControlRequest
  nack : Text → Cursor → Option Text → ControlRequest

-- `ControlRequest::grant`
unfoldable pub grant_of : ControlRequest → Option Text
grant_of (create_subscription name policy grant) = grant
grant_of (delete_subscription name grant) = grant
grant_of (list_subscriptions grant) = grant
grant_of (high_cursor grant) = grant
grant_of (pull name max_messages grant) = grant
grant_of (ack name cursor grant) = grant
grant_of (nack name cursor grant) = grant

pub record LeasedMessage : Type 0 where
  pub message : Message
  pub delivery_attempt : ℕ

-- The replies, whose reason for a refusal is a text on the wire and a value of the owner's before it
-- is written out.
pub data IngestReply (E : Type 0) : Type 0 where
  accepted : Cursor → IngestReply E
  rejected : E → IngestReply E

-- `done` is the source's `Ok`.
pub data ControlReply (E : Type 0) : Type 0 where
  done : ControlReply E
  high : Cursor → ControlReply E
  subscriptions : List Text → ControlReply E
  pulled : List LeasedMessage → ControlReply E
  rejected : E → ControlReply E

pub data DecodeError : Type 0 where
  too_large hex_too_large idempotency_key_too_long : DecodeError
  bad_hex bad_json : Text → DecodeError

-- What the crates `hex` and `serde_json` do.
pub record Wire : Type 0 where
  pub hex_encode : Text → Text
  pub hex_decode : Text → Result Text Text
  pub ingest_to_json : IngestRequest → Text
  pub ingest_from_json : Text → Result Text IngestRequest
  pub control_to_json : ControlRequest → Text
  pub control_from_json : Text → Result Text ControlRequest
  pub ingest_reply_to_json : IngestReply Text → Text
  pub ingest_reply_from_json : Text → Result Text (IngestReply Text)
  pub control_reply_to_json : ControlReply Text → Text
  pub control_reply_from_json : Text → Result Text (ControlReply Text)

abbrev pub id_too_long : Option Text → Bool
id_too_long none = false
id_too_long (some k) = ltb max_idempotency_key_len (length k)

module _ (w : Wire) where
  -- `IngestRequest::decode`
  unfoldable pub decode_ingest : Text → Result DecodeError IngestRequest
  decode_ingest bytes = do
    refuse_if (ltb max_ingest_hex_bytes (length bytes)) too_large
    req ← map_err bad_json (w.ingest_from_json bytes)
    refuse_if (ltb max_ingest_hex_bytes (length req.payload_hex)) hex_too_large
    refuse_if (id_too_long req.idempotency_key) idempotency_key_too_long
    ok req

  -- `IngestRequest::decode_hex`
  unfoldable pub decode_ingest_hex : Text → Result DecodeError IngestRequest
  decode_ingest_hex payload_hex = do
    refuse_if (ltb max_ingest_hex_bytes (length payload_hex)) too_large
    bytes ← map_err bad_hex (w.hex_decode payload_hex)
    decode_ingest bytes

  -- `ControlRequest::decode`
  unfoldable pub decode_control : Text → Result DecodeError ControlRequest
  decode_control bytes = do
    refuse_if (ltb max_control_body_bytes (length bytes)) too_large
    map_err bad_json (w.control_from_json bytes)
