-- ===== src/Client/Remote.antt =====
-- src/lib.rs, the client's calls to a topic's owner over the mesh: `publish_to_with`, the calls on
-- subscriptions, and `fetch_high_cursor`. A call is a function of the state of the world beyond the
-- mesh, which a request may change.
use ce_pubsub.Prelude.{ℕ, Option, none, some, List, [], if◌then◌else◌}
use ce_pubsub.Prelude.Order.{Text, same, text_order}
use ce_pubsub.Prelude.Result.{Result, ok, err, ◌>>=◌, ◌>>◌}
use ce_pubsub.Message.{
  Cursor, Invalid, PublishOptions, validate_topic, validate_payload, validate_options, ingest_topic,
  control_topic,
}
use ce_pubsub.Log.{TopicLog, high_cursor}
use ce_pubsub.Subscription.{SubscriptionPolicy, PolicyError, validate_policy}
use ce_pubsub.Caps.{map_err}
use ce_pubsub.Client.{Reader, Replay, default_pull_limit, pull_limited}
use ce_pubsub.Protocol
use ce_pubsub.Protocol.{
  Wire, IngestRequest, ControlRequest, LeasedMessage, IngestReply, ControlReply,
}

pub data ClientError : Type 0 where
  invalid : Invalid → ClientError
  invalid_policy : PolicyError → ClientError
  unreachable bad_reply owner_rejected : Text → ClientError
  unexpected_reply : ControlReply Text → ClientError

-- `CeClient::request`: to an owner, on a topic, a body, and how long to wait.
pub record Mesh (S : Type 0) : Type 0 where
  pub request : S → Text → Text → Text → ℕ → S × Result Text Text

-- `PublishOptions::new()`
abbrev pub no_options : PublishOptions
no_options = record { ordering_key = none; attributes = [] }

-- What a reply to a publish means.
unfoldable pub published : IngestReply Text → Result ClientError Cursor
published (IngestReply.accepted c) = ok c
published (IngestReply.rejected why) = err (owner_rejected why)

unfoldable pub expect_ok : ControlReply Text → Result ClientError (Unit {0})
expect_ok ControlReply.done = ok tt
expect_ok (ControlReply.rejected why) = err (owner_rejected why)
expect_ok (ControlReply.high c) = err (unexpected_reply (ControlReply.high c))
expect_ok (ControlReply.subscriptions names) =
    err (unexpected_reply (ControlReply.subscriptions names))
expect_ok (ControlReply.pulled msgs) = err (unexpected_reply (ControlReply.pulled msgs))

unfoldable pub expect_names : ControlReply Text → Result ClientError (List Text)
expect_names (ControlReply.subscriptions names) = ok names
expect_names (ControlReply.rejected why) = err (owner_rejected why)
expect_names ControlReply.done = err (unexpected_reply ControlReply.done)
expect_names (ControlReply.high c) = err (unexpected_reply (ControlReply.high c))
expect_names (ControlReply.pulled msgs) = err (unexpected_reply (ControlReply.pulled msgs))

unfoldable pub expect_messages : ControlReply Text → Result ClientError (List LeasedMessage)
expect_messages (ControlReply.pulled msgs) = ok msgs
expect_messages (ControlReply.rejected why) = err (owner_rejected why)
expect_messages ControlReply.done = err (unexpected_reply ControlReply.done)
expect_messages (ControlReply.high c) = err (unexpected_reply (ControlReply.high c))
expect_messages (ControlReply.subscriptions names) =
    err (unexpected_reply (ControlReply.subscriptions names))

unfoldable pub expect_high : ControlReply Text → Result ClientError Cursor
expect_high (ControlReply.high c) = ok c
expect_high (ControlReply.rejected why) = err (owner_rejected why)
expect_high ControlReply.done = err (unexpected_reply ControlReply.done)
expect_high (ControlReply.subscriptions names) =
    err (unexpected_reply (ControlReply.subscriptions names))
expect_high (ControlReply.pulled msgs) = err (unexpected_reply (ControlReply.pulled msgs))

-- The checks that a call makes before it sends anything.
unfoldable pub after_checks {ℓ} :
    {S : Type 0} {A : Type ℓ}
    → Result ClientError (Unit {0})
    → S
    → S × Result ClientError A
    → S × Result ClientError A
after_checks (err why) s call = (s, err why)
after_checks (ok u) s call = call

-- The request that `publish_to_with` builds.
unfoldable pub ingest_request :
    Wire → Text → Option Text → PublishOptions → Option Text → IngestRequest
ingest_request wire payload grant opts idempotency_key = record {
  payload_hex = wire.hex_encode payload;
  grant = grant;
  idempotency_key = idempotency_key;
  ordering_key = opts.ordering_key;
  attributes = opts.attributes;
}

module _ {S : Type 0} (wire : Wire) (mesh : Mesh S) where
  -- `PubSub::control`
  unfoldable pub control :
      S → Text → Text → ControlRequest → ℕ → S × Result ClientError (ControlReply Text)
  control s topic owner req timeout_ms =
      let (s', reply) =
        mesh.request s owner (control_topic topic) (wire.control_to_json req) timeout_ms in
      (
        s',
        map_err unreachable reply >>= λ bytes.
            map_err bad_reply (wire.control_reply_from_json bytes),
      )

  -- A control request on a topic with a valid name, and what its reply is taken for.
  unfoldable pub control_for {ℓ} :
      {A : Type ℓ}
      → (ControlReply Text → Result ClientError A)
      → S
      → Text
      → Text
      → ControlRequest
      → ℕ
      → S × Result ClientError A
  control_for expect s topic owner req timeout_ms =
      let (s', reply) = control s topic owner req timeout_ms in (s', reply >>= expect)

  -- `PubSub::control_ok`
  unfoldable pub control_ok :
      S → Text → Text → ControlRequest → ℕ → S × Result ClientError (Unit {0})
  control_ok = control_for expect_ok

  unfoldable pub create_subscription :
      S
      → Text
      → Text
      → Text
      → SubscriptionPolicy
      → Option Text
      → ℕ
      → S × Result ClientError (Unit {0})
  create_subscription s topic owner name policy grant timeout_ms =
      after_checks
        (map_err invalid (validate_topic topic)
          >> map_err invalid (validate_topic name)
          >> map_err invalid_policy (validate_policy policy))
        s (control_ok s topic owner (Protocol.create_subscription name policy grant) timeout_ms)

  unfoldable pub delete_subscription :
      S → Text → Text → Text → Option Text → ℕ → S × Result ClientError (Unit {0})
  delete_subscription s topic owner name grant timeout_ms =
      after_checks (map_err invalid (validate_topic topic)) s
        (control_ok s topic owner (Protocol.delete_subscription name grant) timeout_ms)

  unfoldable pub list_subscriptions :
      S → Text → Text → Option Text → ℕ → S × Result ClientError (List Text)
  list_subscriptions s topic owner grant timeout_ms =
      after_checks (map_err invalid (validate_topic topic)) s
        (control_for expect_names s topic owner (Protocol.list_subscriptions grant) timeout_ms)

  unfoldable pub lease :
      S → Text → Text → Text → ℕ → Option Text → ℕ → S × Result ClientError (List LeasedMessage)
  lease s topic owner sub max_messages grant timeout_ms =
      after_checks (map_err invalid (validate_topic topic)) s (
        control_for expect_messages s topic owner (Protocol.pull sub max_messages grant) timeout_ms)

  unfoldable pub ack :
      S → Text → Text → Text → Cursor → Option Text → ℕ → S × Result ClientError (Unit {0})
  ack s topic owner sub cursor grant timeout_ms =
      after_checks (map_err invalid (validate_topic topic)) s
        (control_ok s topic owner (Protocol.ack sub cursor grant) timeout_ms)

  unfoldable pub nack :
      S → Text → Text → Text → Cursor → Option Text → ℕ → S × Result ClientError (Unit {0})
  nack s topic owner sub cursor grant timeout_ms =
      after_checks (map_err invalid (validate_topic topic)) s
        (control_ok s topic owner (Protocol.nack sub cursor grant) timeout_ms)

  -- `PubSub::fetch_high_cursor`; the owner itself reads its log, which `local` opens.
  unfoldable pub fetch_high_cursor :
      S → Text → Result Text TopicLog → Text → Text → ℕ → S × Result ClientError Cursor
  fetch_high_cursor s node_id local topic owner timeout_ms =
      if same owner node_id
      then (s, map_err unreachable local >>= λ l. ok (high_cursor l))
      else control_for expect_high s topic owner (Protocol.high_cursor none) timeout_ms

  -- The request of `publish_to_with`, and what it makes of the reply.
  unfoldable pub send_publish : S → Text → Text → IngestRequest → ℕ → S × Result ClientError Cursor
  send_publish s topic owner req timeout_ms =
      let (s', reply) =
        mesh.request s owner (ingest_topic topic) (wire.ingest_to_json req) timeout_ms in
      (
        s',
        map_err unreachable reply
            >>= (λ bytes. map_err bad_reply (wire.ingest_reply_from_json bytes) >>= published),
      )

  unfoldable pub publish_to_with :
      S
      → Text
      → Text
      → Text
      → Option Text
      → PublishOptions
      → Option Text
      → ℕ
      → S × Result ClientError Cursor
  publish_to_with s topic owner payload grant opts idempotency_key timeout_ms =
      after_checks
        (map_err invalid
          (validate_topic topic >> validate_payload payload >> validate_options opts))
        s
        (send_publish s topic owner (ingest_request wire payload grant opts idempotency_key)
          timeout_ms)

  unfoldable pub publish_to :
      S → Text → Text → Text → Option Text → ℕ → S × Result ClientError Cursor
  unfolding publish_to_with
  publish_to s topic owner payload grant timeout_ms =
      publish_to_with s topic owner payload grant no_options none timeout_ms

  -- `Result::ok`
  abbrev pub answered {ℓ} : {A : Type ℓ} → Result ClientError A → Option A
  answered (ok x) = some x
  answered (err why) = none

  -- `PubSub::pull`, with the replica that the reader shows.
  unfoldable pub pull :
      S
      → Text
      → Result Text TopicLog
      → ℕ
      → Reader
      → Text
      → Text
      → Cursor
      → S × Result ClientError Replay
  pull s node_id local fuel r topic owner from =
      let (s', target) = fetch_high_cursor s node_id local topic owner 8_000 in
      after_checks (map_err invalid (validate_topic topic)) s
        (s', map_err invalid (pull_limited fuel r topic (answered target) from default_pull_limit))
