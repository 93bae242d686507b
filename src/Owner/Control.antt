-- ===== src/Owner/Control.antt =====
-- src/lib.rs: the control handler of an owner (subscriptions, leases, acks and nacks), and
-- what goes into its answers.
pub mod Pull
pub mod Gate
pub mod Keeps
use ce_pubsub.Prelude.{ℕ, Bool, true, false, none, some, List, [], ◌∷◌, ◌++◌, if◌then◌else◌}
use ce_pubsub.Prelude.Order.{Text, text_order}
use ce_pubsub.Prelude.Map.{keys, has}
use ce_pubsub.Prelude.Result.{Result, ok, err, ◌>>=◌}
use ce_pubsub.Message.{Cursor, Message, Invalid, validate_topic}
use ce_pubsub.Log
use ce_pubsub.Subscription.{
  SubOp, PolicyError, LeaseOutcome, create, delete, ack, nack, at_capacity, validate_policy,
}
use ce_pubsub.Subscription.Plan.{plan_lease}
use ce_pubsub.Caps.{Iam, ability_subscribe, or_fail}
use ce_pubsub.Protocol
use ce_pubsub.Protocol.ControlReply.{done, high, subscriptions, pulled, rejected}
use ce_pubsub.Protocol.{
  ControlReply, Wire, DecodeError, ControlRequest, LeasedMessage, grant_of, decode_control,
}
use ce_pubsub.Owner.{Owner, World, Refusal, no_capability, authorize}

pub data ControlRefusal : Type 0 where
  bad_hex : Text → ControlRefusal
  bad_body : DecodeError → ControlRefusal
  refused : Refusal → ControlRefusal
  invalid_policy : PolicyError → ControlRefusal
  subscription_limit_reached : ControlRefusal
  invalid_name : Invalid → ControlRefusal
  no_such_subscription : Text → ControlRefusal
  create_failed delete_failed ack_failed nack_failed lease_failed : Text → ControlRefusal

-- The messages of the leased cursors, each with its attempt: the loop at the end of `handle_lease`.
unfoldable pub resolve : Log.TopicLog → List (Cursor × ℕ) → List LeasedMessage
resolve l [] = []
resolve l ((c, attempt) ∷ leased) = elim (Log.get l c) [
  | none ↦ resolve l leased
  | some m ↦ record { message = m; delivery_attempt = attempt } ∷ resolve l leased
]

-- The `filter_map` of `route_dead_letters`.
unfoldable pub get_all : Log.TopicLog → List Cursor → List Message
get_all l [] = []
get_all l (c ∷ cursors) = elim (Log.get l c) [
  | none ↦ get_all l cursors
  | some m ↦ m ∷ get_all l cursors
]

module _ (iam : Iam) (wire : Wire) (w : World) where
  unfoldable pub publish_each : List Message → List Message → List Message
  publish_each out [] = out
  publish_each out (m ∷ msgs) =
      publish_each (if w.dead_letter_publish m then out ++ m ∷ [] else out) msgs

  -- `Topic::route_dead_letters`
  unfoldable pub route_dead_letters : Owner → List Cursor → Owner
  route_dead_letters o cursors =
      if w.dead_letter_stream
      then record o { dead_letters = publish_each o.dead_letters (get_all o.log cursors) }
      else o

  -- A proposal on the registry, with the reply for each outcome.
  unfoldable pub propose :
      Owner
      → SubOp
      → ControlReply ControlRefusal
      → (Text → ControlRefusal)
      → Owner × ControlReply ControlRefusal
  propose o op reply failed =
      let (subs, failure) = w.propose_subs o.subs op in
      elim failure [
        | some why ↦ (record o { subs = subs }, rejected (failed why))
        | none ↦ (record o { subs = subs }, reply)
      ]

  -- `if !outcome.dead_lettered.is_empty() { … }`
  unfoldable pub route_any : Owner → List Cursor → Owner
  route_any o [] = o
  route_any o (c ∷ cursors) = route_dead_letters o (c ∷ cursors)

  -- What follows a lease that was committed.
  unfoldable pub deliver : Owner → LeaseOutcome → Owner × ControlReply ControlRefusal
  deliver o outcome =
      let o' = route_any o outcome.dead_lettered in (o', pulled (resolve o'.log outcome.leased))

  -- `Topic::handle_lease`
  unfoldable pub handle_lease : Owner → Text → ℕ → ℕ → Owner × ControlReply ControlRefusal
  handle_lease o name max_messages now =
      if has name o.subs.subs
      then elim (plan_lease o.subs name (Log.high_cursor o.log) o.log.floor now max_messages) [
        | none ↦ (o, pulled [])
        | some (op, outcome) ↦
            let (subs, failure) = w.propose_subs o.subs op in
            let o1 = record o { subs = subs } in
            elim failure [
              | some why ↦ (o1, rejected (lease_failed why))
              | none ↦ deliver o1 outcome
            ]
      ]
      else (o, rejected (no_such_subscription name))

  -- The gate before every request but the one for the high cursor.
  unfoldable pub admit_subscriber : Owner → ControlRequest → Text → ℕ → Result Refusal (Unit {0})
  admit_subscriber o req requester now =
      if o.require_cap
      then (do
        token ← or_fail (grant_of req) no_capability
        authorize iam wire w o requester ability_subscribe token now)
      else ok tt

  -- The second `match` of `handle_control`: the request is admitted.
  unfoldable pub control : Owner → ControlRequest → ℕ → Owner × ControlReply ControlRefusal
  control o (Protocol.high_cursor grant) now = (o, high (Log.high_cursor o.log))
  control o (Protocol.create_subscription name policy grant) now = elim (validate_policy policy) [
    | err why ↦ (o, rejected (invalid_policy why))
    | ok valid ↦ elim (validate_topic name) [
      | err why ↦ (o, rejected (invalid_name why))
      | ok fine ↦
          if at_capacity o.subs name
          then (o, rejected subscription_limit_reached)
          else propose o (create name policy) done create_failed
    ]
  ]
  control o (Protocol.delete_subscription name grant) now =
      propose o (delete name) done delete_failed
  control o (Protocol.list_subscriptions grant) now = (o, subscriptions (keys o.subs.subs))
  control o (Protocol.pull name max_messages grant) now = handle_lease o name max_messages now
  control o (Protocol.ack name cursor grant) now =
      if has name o.subs.subs
      then propose o (ack name cursor) done ack_failed
      else (o, rejected (no_such_subscription name))
  control o (Protocol.nack name cursor grant) now =
      if has name o.subs.subs
      then propose o (nack name cursor) done nack_failed
      else (o, rejected (no_such_subscription name))

  unfoldable pub is_high_cursor : ControlRequest → Bool
  is_high_cursor (Protocol.high_cursor grant) = true
  is_high_cursor (Protocol.create_subscription name policy grant) = false
  is_high_cursor (Protocol.delete_subscription name grant) = false
  is_high_cursor (Protocol.list_subscriptions grant) = false
  is_high_cursor (Protocol.pull name max_messages grant) = false
  is_high_cursor (Protocol.ack name cursor grant) = false
  is_high_cursor (Protocol.nack name cursor grant) = false

  unfoldable pub admitted : Owner → ControlRequest → Text → ℕ → Owner × ControlReply ControlRefusal
  admitted o req requester now =
      if is_high_cursor req
      then control o req now
      else elim (admit_subscriber o req requester now) [
        | err why ↦ (o, rejected (refused why))
        | ok fine ↦ control o req now
      ]

  -- `Topic::handle_control`
  unfoldable pub handle_control : Owner → Text → Text → ℕ → Owner × ControlReply ControlRefusal
  handle_control o payload_hex requester now = elim (wire.hex_decode payload_hex) [
    | err why ↦ (o, rejected (bad_hex why))
    | ok bytes ↦ elim (decode_control wire bytes) [
      | err why ↦ (o, rejected (bad_body why))
      | ok req ↦ admitted o req requester now
    ]
  ]
