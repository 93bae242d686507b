-- ===== src/Cli.antt =====
-- src/main.rs: the commands, their arguments, and what the handlers of all of them need. Lines that
-- are printed are values, which keep what is put into the text.
pub mod Act
pub mod Run
pub mod Arguments
pub mod Grants
pub mod AutoAck
use ce_pubsub.Prelude.{
  ℕ, ◌<◌, Bool, true, false, ◌&&◌, Option, none, some, List, [], ◌∷◌, ◌==◌, leb, min, if◌then◌else◌,
  length, take, drop,
}
use ce_pubsub.Prelude.Words.{add_u64}
use ce_pubsub.Prelude.Order.{Text, codes}
use ce_pubsub.Prelude.Text.{trim}
use ce_pubsub.Prelude.Result.{Result, ok, err, ◌>>=◌}
use ce_pubsub.Message.{Cursor, Invalid, Message, PublishOptions, attribute, set_ordering_key}
use ce_pubsub.Message.Filter.{FilterError, split_at}
use ce_pubsub.Caps.{NodeId, Iam, LinkError}
use ce_pubsub.Protocol.{Wire}
use ce_pubsub.Owner.{Refusal}
use ce_pubsub.Owner.Topic.{CreateError}
use ce_pubsub.Client.Remote.{ClientError, no_options}
use ce_pubsub.Client.Live.{SubscribeError}

pub record PublishArgs : Type 0 where
  pub topic : Text
  pub message : Option Text
  pub file : Option Text
  pub own : Bool
  pub owner : Option Text
  pub grant : Option Text
  pub ordering_key : Option Text
  pub attr : List (Text × Text)
  pub idempotency_key : Option Text
  pub timeout_ms : ℕ

pub record GrantArgs : Type 0 where
  pub topic : Text
  pub subscribe : Bool
  pub expires_in : ℕ
  pub audience : Option Text
  pub data_dir : Option Text

-- What the commands on a subscription share: its topic, its name, the owner, the grant and how long
-- to wait.
pub record SubscriptionArgs : Type 0 where
  pub topic : Text
  pub name : Text
  pub owner : Text
  pub grant : Option Text
  pub timeout_ms : ℕ

pub data Cmd : Type 0 where
  create_topic : Text → Bool → Cmd
  publish : PublishArgs → Cmd
  subscribe : Text → Text → Option ℕ → Option Text → Cmd
  pull : Text → Text → ℕ → Cmd
  grant : GrantArgs → Cmd
  inspect : Text → Cmd
  create_subscription : SubscriptionArgs → ℕ → ℕ → Cmd
  lease : SubscriptionArgs → ℕ → Bool → Cmd
  ack nack : SubscriptionArgs → Cursor → Cmd
  delete_subscription : SubscriptionArgs → Cmd
  list_subscriptions : Text → Text → Option Text → ℕ → Cmd

pub data CliError : Type 0 where
  attribute_not_key_value : Text → CliError
  audience_not_hex : Text → CliError
  audience_not_32_bytes no_payload no_owner : CliError
  no_connection unreadable_file no_identity : Text → CliError
  bad_filter : FilterError → CliError
  client : ClientError → CliError
  create : CreateError → CliError
  refused : Refusal → CliError
  live : SubscribeError → CliError
  link : LinkError → CliError
  pull_failed : Invalid → CliError
  -- A slice that does not end between two characters.
  panicked : CliError

pub data Line : Type 0 where
  owning publishers subscribers : Text → Text → Line
  needs_capability : Text → Line
  serving : Line
  own_note : Text → Line
  published_own : Text → Cursor → Line
  published_via : Text → Cursor → Text → Line
  subscribed : Text → Text → Line
  shown : Cursor → Text → Text → Line
  replayed : ℕ → ℕ → Cursor → Line
  more_remain : Cursor → Line
  not_converged : ℕ → Line
  token : Text → Line
  token_info : Text → Text → ℕ → Line
  abilities : List Text → Line
  scope : Text → Line
  created lease_with : Text → Text → Text → Line
  nothing_available : Text → Line
  leased : Cursor → ℕ → Text → Text → Line
  acked_all : ℕ → Line
  acked nacked : Cursor → Text → Line
  deleted : Text → Text → Line
  no_subscriptions : Text → Line
  name : Text → Line

-- The value parser of `--attr`.
unfoldable pub parse_attr : Text → Result CliError (Text × Text)
parse_attr s = elim (split_at b'=' s) [
  | none ↦ err (attribute_not_key_value s)
  | some (k, v) ↦ if length k == 0 then err (attribute_not_key_value s) else ok (k, v)
]

unfoldable pub parse_audience :
    (iam : Iam) → Wire → Option Text → iam.Identity → Result CliError NodeId
parse_audience iam wire none owner = ok (iam.node_id owner)
parse_audience iam wire (some hex_id) owner = elim (wire.hex_decode (trim hex_id)) [
  | err why ↦ err (audience_not_hex why)
  | ok bytes ↦ if length bytes == 32 then ok bytes else err audience_not_32_bytes
]

-- `match (file, message)`
unfoldable pub payload_of :
    (Text → Result Text Text) → Option Text → Option Text → Result CliError Text
payload_of read (some path) message = elim (read path) [
  | err why ↦ err (unreadable_file why)
  | ok bytes ↦ ok bytes
]
payload_of read none (some m) = ok m
payload_of read none none = err no_payload

-- The loop over `attr`.
unfoldable pub add_attributes : PublishOptions → List (Text × Text) → PublishOptions
add_attributes opts [] = opts
add_attributes opts ((k, v) ∷ attr) = add_attributes (attribute opts k v) attr

unfoldable pub options_of : Option Text → List (Text × Text) → PublishOptions
options_of none attr = add_attributes no_options attr
options_of (some key) attr = add_attributes (set_ordering_key no_options key) attr

-- `if expires_in == 0 { 0 } else { now() + expires_in }`, which wraps around in a release build.
unfoldable pub not_after : ℕ → ℕ → ℕ
not_after now expires_in = if expires_in == 0 then 0 else add_u64 now expires_in

-- A byte in the middle of a character.
abbrev pub continues : Text → Bool
continues [] = false
continues (b ∷ s) = leb 128 b && leb b 191

-- `&publisher[..publisher.len().min(12)]`
unfoldable pub short : Text → Option Text
short publisher =
    if continues (drop (min (length publisher) 12) publisher)
    then none
    else some (take (min (length publisher) 12) publisher)

-- `Message::text`, where `String::from_utf8_lossy` is a parameter.
unfoldable pub text : (Text → Text) → Wire → Message → Text
text lossy wire m = elim (wire.hex_decode m.payload_hex) [ err why ↦ [] | ok bytes ↦ lossy bytes ]
