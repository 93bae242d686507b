-- ===== src/Owner/Topic.antt =====
-- src/lib.rs: `create_topic` and the calls on a `Topic` handle. What the opening of the replicated
-- logs and of the live stream gives is a parameter.
use ce_pubsub.Prelude.{
  ℕ, Bool, true, false, ◌||◌, none, some, List, [], ◌∷◌, ◌++◌, if◌then◌else◌, length,
}
use ce_pubsub.Prelude.Order.{Text, same, text_order}
use ce_pubsub.Prelude.Map.{keys}
use ce_pubsub.Prelude.Result.{Result, ok, err, ◌>>=◌}
use ce_pubsub.Message.{Cursor, Invalid, new, authenticated, validate_topic, validate_payload}
use ce_pubsub.Log
use ce_pubsub.Log.{TopicLog}
use ce_pubsub.Dedup.{new_cache, new_tokens}
use ce_pubsub.Subscription.{SubRegistry}
use ce_pubsub.Caps.{NodeId, Iam, map_err}
use ce_pubsub.Protocol.{Wire}
use ce_pubsub.Owner.{
  Owner, World, Refusal, dedup_capacity, dedup_ttl_secs, parse_node_id, append_and_fanout,
}
use ce_pubsub.Owner.Serve.{Node}

pub data CreateError : Type 0 where
  invalid_topic : Invalid → CreateError
  no_log no_registry no_stream : Text → CreateError

-- The writers and the stream that `ce-coord` opens for a topic.
pub record Opened : Type 0 where
  pub writer : Result Text TopicLog
  pub registry : Result Text SubRegistry
  pub stream : Result Text (Unit {0})

-- `PubSub::create_topic`, with the state of the two loops that it starts.
unfoldable pub create_topic : Text → Opened → Text → Result CreateError Node
create_topic node_id opened topic = do
  named ← map_err invalid_topic (validate_topic topic)
  log ← map_err no_log opened.writer
  subs ← map_err no_registry opened.registry
  live ← map_err no_stream opened.stream
  ok (record {
    owner = record {
      node_id = node_id;
      topic = topic;
      log = log;
      subs = subs;
      live = [];
      dead_letters = [];
      accepted_roots = [];
      require_cap = false;
      dedup = new_cache dedup_capacity dedup_ttl_secs;
    };
    handled = new_tokens dedup_capacity dedup_ttl_secs;
  })

unfoldable pub require_publish_cap : Owner → Bool → Owner
require_publish_cap o require = record o { require_cap = require }

abbrev pub contains : List NodeId → NodeId → Bool
contains [] id = false
contains (root ∷ roots) id = same root id || contains roots id

unfoldable pub retained : Owner → ℕ
retained o = length o.log.messages

unfoldable pub high_cursor : Owner → Cursor
high_cursor o = Log.high_cursor o.log

unfoldable pub subscription_names : Owner → List Text
subscription_names o = keys o.subs.subs

module _ (iam : Iam) (wire : Wire) (w : World) where
  -- `Topic::accept_root`
  unfoldable pub accept_root : Owner → Text → Owner × Result Refusal (Unit {0})
  accept_root o root = elim (parse_node_id iam wire w root) [
    | none ↦ (o, err Refusal.bad_node_id)
    | some id ↦
        if contains o.accepted_roots id
        then (o, ok tt)
        else (record o { accepted_roots = o.accepted_roots ++ id ∷ [] }, ok tt)
  ]

  -- `Topic::publish`
  unfoldable pub publish : Owner → Text → ℕ → Owner × Result Refusal Cursor
  publish o payload now = elim (validate_payload payload) [
    | err why ↦ (o, err (Refusal.invalid why))
    | ok fine ↦
        append_and_fanout iam wire w o
          (authenticated (new wire.hex_encode 0 o.node_id payload now) true)
  ]

  -- `Topic::prune_to`
  unfoldable pub prune_to : Owner → Cursor → Owner × Result Refusal (Unit {0})
  prune_to o up_to =
      let (log, failure) = w.propose_log o.log (Log.prune_to up_to) in
      (
        record o { log = log },
        elim failure [ none ↦ ok tt | some why ↦ err (Refusal.append_failed why) ],
      )
