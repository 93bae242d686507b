-- ===== src/Cli/Run.antt =====
-- src/main.rs: what each command does.
use ce_pubsub.Prelude.{
  ℕ, Bool, true, false, not, ◌&&◌, Option, none, some, List, [], ◌∷◌, ◌==◌, if◌then◌else◌, length,
}
use ce_pubsub.Prelude.Order.{Text}
use ce_pubsub.Prelude.Result.{Result, ok, err}
use ce_pubsub.Message.{Cursor, Message}
use ce_pubsub.Message.Filter
use ce_pubsub.Log.{TopicLog}
use ce_pubsub.Caps.{
  Iam, ability_publish, ability_subscribe, map_err, or_fail, mint_link, inspect_link,
}
use ce_pubsub.Protocol.{Wire, LeasedMessage}
use ce_pubsub.Owner.{World, publish_with}
use ce_pubsub.Owner.Topic
use ce_pubsub.Owner.Topic.{Opened, require_publish_cap}
use ce_pubsub.Client.{Reader}
use ce_pubsub.Client.Remote
use ce_pubsub.Client.Remote.{Mesh, publish_to_with}
use ce_pubsub.Client.Live.{Subscription, tail}
use ce_pubsub.Client.Live
use ce_pubsub.Cli.{
  Cmd, PublishArgs, GrantArgs, SubscriptionArgs, CliError, Line, parse_audience, payload_of,
  options_of, not_after, short, text,
}
use ce_pubsub.Cli.Act.{Act, ◌>>=◌, ◌>>◌, give, say, call}

-- The node and the system that a command runs on: connecting, the node's id, its mesh, what the
-- opening of a topic's logs and of a live stream gives, files, identities, the clock and the lossy
-- conversion to UTF-8.
pub record System (iam : Iam) (S : Type 0) : Type 0 where
  pub connect : S → S × Result Text (Unit {0})
  pub node_id : Text
  pub mesh : Mesh S
  pub opened : Text → Opened
  pub open_stream : Text → Result Text (List Message)
  pub reader : Text → Text → Reader
  pub fuel : ℕ
  pub local : Text → Result Text TopicLog
  pub read_file : Text → Result Text Text
  pub identity : Option Text → Result Text iam.Identity
  pub now : ℕ
  pub lossy : Text → Text

module _ {S : Type 0} (iam : Iam) (wire : Wire) (w : World) (system : System iam S) where
  unfoldable pub connect : Act S (Unit {0})
  connect = λ s.
      let (s', r) = system.connect s in
      record { state = s'; lines = []; result = map_err CliError.no_connection r }

  -- A message in a listing; the slice of the publisher panics inside a character.
  unfoldable pub show : Message → Act S (Unit {0})
  show m = do
    publisher ← give (or_fail (short m.publisher) CliError.panicked)
    say (Line.shown m.cursor publisher (text system.lossy wire m))

  unfoldable pub show_all : List Message → Act S (Unit {0})
  show_all [] = give (ok tt)
  show_all (m ∷ msgs) = show m >> show_all msgs

  unfoldable pub say_if : Bool → Line → Act S (Unit {0})
  say_if true line = say line
  say_if false line = give (ok tt)

  unfoldable pub run_create_topic : Text → Bool → Act S (Unit {0})
  run_create_topic topic require_cap = do
    connect
    node ←
        give
          (map_err CliError.create (Topic.create_topic system.node_id (system.opened topic) topic))
    say (Line.owning topic system.node_id)
    say (Line.publishers topic system.node_id)
    say (Line.subscribers topic system.node_id)
    say_if (require_publish_cap node.owner require_cap).require_cap (Line.needs_capability topic)
    say Line.serving

  unfoldable pub run_publish : PublishArgs → Act S (Unit {0})
  run_publish a = do
    payload ← give (payload_of system.read_file a.file a.message)
    connect
    if a.own
        then (do
          say (Line.own_note a.topic)
          node ← give (
              map_err CliError.create
                (Topic.create_topic system.node_id (system.opened a.topic) a.topic))
          cursor ← give (
              map_err CliError.refused
                (publish_with iam wire w node.owner payload (options_of a.ordering_key a.attr)
                  system.now).1)
          say (Line.published_own a.topic cursor))
        else (do
          owner ← give (or_fail a.owner CliError.no_owner)
          cursor ← call (λ s.
              publish_to_with wire system.mesh s a.topic owner payload a.grant
                (options_of a.ordering_key a.attr) a.idempotency_key a.timeout_ms)
          say (Line.published_via a.topic cursor owner))

  unfoldable pub subscription_of : Text → Text → Option Text → Result CliError Subscription
  subscription_of topic owner none =
      map_err CliError.live (Live.subscribe system.open_stream topic owner)
  subscription_of topic owner (some f) = elim (Filter.parse f) [
    | err why ↦ err (CliError.bad_filter why)
    | ok filter ↦
        map_err CliError.live (Live.subscribe_filtered system.open_stream topic owner filter)
  ]

  unfoldable pub run_subscribe : Text → Text → Option ℕ → Option Text → Act S (Unit {0})
  run_subscribe topic owner count filter = do
    connect
    sub ← give (subscription_of topic owner filter)
    say (Line.subscribed topic owner)
    show_all (tail (length sub.stream) count 0 sub)

  unfoldable pub run_pull : Text → Text → Cursor → Act S (Unit {0})
  run_pull topic owner from = do
    connect
    replay ← call (λ s.
        Remote.pull wire system.mesh s system.node_id (system.local topic) system.fuel
          (system.reader topic owner) topic owner from)
    show_all replay.messages
    say (Line.replayed (length replay.messages) from replay.high)
    say_if replay.truncated (Line.more_remain replay.next)
    say_if (not replay.converged) (Line.not_converged replay.missing)

  unfoldable pub ability_of : Bool → Text
  ability_of subscribe = if subscribe then ability_subscribe else ability_publish

  unfoldable pub run_grant : GrantArgs → Act S (Unit {0})
  run_grant a = do
    owner ← give (map_err CliError.no_identity (system.identity a.data_dir))
    audience ← give (parse_audience iam wire a.audience owner)
    say (
        Line.token (
          mint_link iam owner audience (ability_of a.subscribe) a.topic
            (not_after system.now a.expires_in) system.now))
    say (Line.token_info (ability_of a.subscribe) a.topic (not_after system.now a.expires_in))

  unfoldable pub run_inspect : Text → Act S (Unit {0})
  run_inspect token = do
    (abilities, scope) ← give (map_err CliError.link (inspect_link iam token))
    say (Line.abilities abilities)
    say (Line.scope scope)

  unfoldable pub run_create_subscription : SubscriptionArgs → ℕ → ℕ → Act S (Unit {0})
  run_create_subscription a ack_deadline max_attempts = do
    connect
    call (λ s.
        Remote.create_subscription wire system.mesh s a.topic a.owner a.name
          (record { ack_deadline_secs = ack_deadline; max_delivery_attempts = max_attempts })
          a.grant a.timeout_ms)
    say (Line.created a.name a.topic a.owner)
    say (Line.lease_with a.topic a.name a.owner)

  unfoldable pub send_ack : SubscriptionArgs → Cursor → Act S (Unit {0})
  send_ack a cursor =
      call (λ s. Remote.ack wire system.mesh s a.topic a.owner a.name cursor a.grant a.timeout_ms)

  -- The loop over the leased messages.
  unfoldable pub show_leased : SubscriptionArgs → Bool → List LeasedMessage → Act S (Unit {0})
  show_leased a auto_ack [] = give (ok tt)
  show_leased a auto_ack (lm ∷ leased) = do
    publisher ← give (or_fail (short lm.message.publisher) CliError.panicked)
    say (
        Line.leased lm.message.cursor lm.delivery_attempt publisher
          (text system.lossy wire lm.message))
    if auto_ack then send_ack a lm.message.cursor else give (ok tt)
    show_leased a auto_ack leased

  unfoldable pub run_lease : SubscriptionArgs → ℕ → Bool → Act S (Unit {0})
  run_lease a max_messages auto_ack = do
    connect
    leased ← call (λ s.
        Remote.lease wire system.mesh s a.topic a.owner a.name max_messages a.grant a.timeout_ms)
    say_if (length leased == 0) (Line.nothing_available a.name)
    show_leased a auto_ack leased
    say_if (auto_ack && not (length leased == 0)) (Line.acked_all (length leased))

  unfoldable pub run_ack : SubscriptionArgs → Cursor → Act S (Unit {0})
  run_ack a cursor = do connect; send_ack a cursor; say (Line.acked cursor a.name)

  unfoldable pub run_nack : SubscriptionArgs → Cursor → Act S (Unit {0})
  run_nack a cursor = do
    connect
    call (λ s. Remote.nack wire system.mesh s a.topic a.owner a.name cursor a.grant a.timeout_ms)
    say (Line.nacked cursor a.name)

  unfoldable pub run_delete_subscription : SubscriptionArgs → Act S (Unit {0})
  run_delete_subscription a = do
    connect
    call (λ s.
        Remote.delete_subscription wire system.mesh s a.topic a.owner a.name a.grant a.timeout_ms)
    say (Line.deleted a.name a.topic)

  unfoldable pub say_names : List Text → Act S (Unit {0})
  say_names [] = give (ok tt)
  say_names (n ∷ names) = say (Line.name n) >> say_names names

  unfoldable pub run_list_subscriptions : Text → Text → Option Text → ℕ → Act S (Unit {0})
  run_list_subscriptions topic owner grant timeout_ms = do
    connect
    names ← call (λ s. Remote.list_subscriptions wire system.mesh s topic owner grant timeout_ms)
    say_if (length names == 0) (Line.no_subscriptions topic)
    say_names names

  -- The `match` of `main`.
  unfoldable pub run : Cmd → Act S (Unit {0})
  run (Cmd.create_topic topic require_cap) = run_create_topic topic require_cap
  run (Cmd.publish a) = run_publish a
  run (Cmd.subscribe topic owner count filter) = run_subscribe topic owner count filter
  run (Cmd.pull topic owner from) = run_pull topic owner from
  run (Cmd.grant a) = run_grant a
  run (Cmd.inspect token) = run_inspect token
  run (Cmd.create_subscription a ack_deadline max_attempts) =
      run_create_subscription a ack_deadline max_attempts
  run (Cmd.lease a max_messages auto_ack) = run_lease a max_messages auto_ack
  run (Cmd.ack a cursor) = run_ack a cursor
  run (Cmd.nack a cursor) = run_nack a cursor
  run (Cmd.delete_subscription a) = run_delete_subscription a
  run (Cmd.list_subscriptions topic owner grant timeout_ms) =
      run_list_subscriptions topic owner grant timeout_ms
