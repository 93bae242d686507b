-- ===== src/Tests/Network.antt =====
-- A client and an owner on one mesh, over encodings that can be read back.
use ce_pubsub.Prelude.{suc, ◌+◌, ◌≤◌, ◌≡◌, refl, none, some, List, [], ◌∷◌, ◌++◌, arith, length}
use ce_pubsub.Prelude.Order.{codes, text_order, text_cmp}
use ce_pubsub.Prelude.Map.{lookup}
use ce_pubsub.Prelude.Result.{ok, err}
use ce_pubsub.Message.{
  PublishOptions, PublishOptions, validate_topic, topic_char, validate_payload, validate_options,
  ingest_topic, validate_attributes,
}
use ce_pubsub.Dedup
use ce_pubsub.Log
use ce_pubsub.Subscription
use ce_pubsub.Protocol.{decode_ingest_hex, decode_ingest}
use ce_pubsub.Owner.Serve.{Words, Node, serve_frame, serve_ingest_frame}
use ce_pubsub.Owner.{
  handle_ingest, ingest, apply_ingest, admit_publisher, message_of, append_and_fanout, dedup_key,
}
use ce_pubsub.Client.Remote.{
  unreachable, ingest_request, publish_to_with, send_publish, after_checks, no_options,
}
use ce_pubsub.Network.{direct, unheard}
use ce_pubsub.Network.Publish.{delivered, publish_arrives}
use ce_pubsub.Network.Retry.{publish_retry_unheard}
use ce_pubsub.Client.Remote
use ce_pubsub.Tests.Wire.{plain_iam}
use ce_pubsub.Tests.Owner.{world, world-Applies, owner, owner-IsWellFormed}
use ce_pubsub.Tests.Faithful.{true_wire, true_wire-Faithful}

abbrev pub words : Words
words = record { refusal = λ why. codes "refused"; control_refusal = λ why. codes "refused" }

abbrev pub node : Node
node = record {
  owner = owner;
  handled = record { map = []; order = []; capacity = 4; ttl_secs = 60 };
}

abbrev opts : PublishOptions
opts = record { ordering_key = some (codes "o"); attributes = (codes "k", codes "v") ∷ [] }

publish_arrives_example :
    let mesh = direct plain_iam true_wire world words (codes "p") 100 in
    let (s', out) =
      publish_to_with true_wire mesh
        (node, 7)
        (codes "t")
        (codes "n")
        (codes "hi")
        none
        opts
        none
        1000 in
    let m = delivered true_wire (codes "p") 100 node opts (codes "hi") 2 in
    let log = s'.0.owner.log in
    (2 ≡ suc (0 + length owner.log.messages))
    × (Log.get log 2 ≡ some m)
    × (log.messages ≡ owner.log.messages ++ m ∷ [])
unfolding Dedup.get lookup publish_to_with after_checks validate_topic topic_char validate_payload
    validate_options send_publish serve_frame serve_ingest_frame text_cmp ingest_topic handle_ingest
    decode_ingest_hex ingest_request decode_ingest ce_pubsub.Owner.Serve.worded
    ce_pubsub.Owner.reply_of apply_ingest admit_publisher message_of append_and_fanout
    Log.next_cursor ce_pubsub.Prelude.Words.add_u64 Log.high_cursor
    ce_pubsub.Client.Remote.published
publish_arrives_example =
    publish_arrives plain_iam true_wire world words true_wire-Faithful (codes "p") 100 node 7
      (codes "n") (codes "hi") none opts none 1000 2 world-Applies owner-IsWellFormed (omega arith)
      (omega arith, (omega arith, tt)) refl refl

publish_retry_unheard_example :
    let first = direct plain_iam true_wire world words (codes "p") 100 in
    let lost = unheard plain_iam true_wire world words (codes "p") 100 in
    let second = direct plain_iam true_wire world words (codes "p") 130 in
    let key = some (codes "k") in
    let s' =
      (publish_to_with true_wire first
        (node, 7)
        (codes "t")
        (codes "n")
        (codes "hi")
        none
        no_options
        key
        1000).0 in
    (publish_to_with true_wire lost
        (node, 7)
        (codes "t")
        (codes "n")
        (codes "hi")
        none
        no_options
        key
        1000
      ≡ (s', err (unreachable (codes "timeout"))))
    × (publish_to_with true_wire second s'
          (codes "t")
          (codes "n")
          (codes "hi")
          none
          no_options
          key
          500
        ≡ ((s'.0, suc s'.1), ok 2))
unfolding Dedup.get lookup publish_to_with after_checks validate_topic topic_char validate_payload
    validate_options send_publish serve_frame serve_ingest_frame text_cmp ingest_topic handle_ingest
    decode_ingest_hex ingest_request decode_ingest ce_pubsub.Owner.Serve.worded
    ce_pubsub.Owner.reply_of apply_ingest admit_publisher message_of append_and_fanout
    Log.next_cursor ce_pubsub.Prelude.Words.add_u64 Log.high_cursor
    ce_pubsub.Client.Remote.published
publish_retry_unheard_example =
    publish_retry_unheard plain_iam true_wire world words true_wire-Faithful (codes "p") node 7 100
      130 (codes "n") (codes "hi") none no_options (codes "k") 1000 500 2 refl refl refl
