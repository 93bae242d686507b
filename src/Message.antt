-- ===== src/Message.antt =====
-- src/message.rs: the message record, its builders, the bounds on what is published, attribute
-- filters and the names of the channels. A `String` is the list of its bytes, so `len()` is the
-- length of the list. The `hex` crate is a parameter.
pub mod Validate
pub mod Filter
pub mod Channels
use ce_pubsub.Prelude.{
  ℕ, Bool, true, false, ◌&&◌, ◌||◌, Option, none, some, List, [], ◌∷◌, ◌++◌, leb, ltb, ◌==◌,
  if◌then◌else◌, length,
}
use ce_pubsub.Prelude.Order.{Text, codes, same, text_order}
use ce_pubsub.Prelude.Map.{Map, lookup, insert}
use ce_pubsub.Prelude.Result.{Result, ok, err, ◌>>=◌, ◌>>◌, refuse_if}

abbrev pub Cursor : Type 0
Cursor = ℕ

abbrev pub max_payload_bytes : ℕ
max_payload_bytes = 10_485_760

abbrev pub max_attributes : ℕ
max_attributes = 100

abbrev pub max_attribute_len : ℕ
max_attribute_len = 1024

pub record Message : Type 0 where
  pub cursor : Cursor
  pub publisher : Text
  pub payload_hex : Text
  pub published_at : ℕ
  pub ordering_key : Option Text
  pub attributes : Map Text Text
  pub publisher_authenticated : Bool

-- `Message::new`
unfoldable pub new : (Text → Text) → Cursor → Text → Text → ℕ → Message
new hex_encode cursor publisher payload published_at = record {
  cursor = cursor;
  publisher = publisher;
  payload_hex = hex_encode payload;
  published_at = published_at;
  ordering_key = none;
  attributes = [];
  publisher_authenticated = false;
}

unfoldable pub authenticated : Message → Bool → Message
authenticated m yes_ = record m { publisher_authenticated = yes_ }

unfoldable pub with_ordering_key : Message → Text → Message
with_ordering_key m key = record m { ordering_key = some key }

unfoldable pub with_attributes : Message → Map Text Text → Message
with_attributes m attrs = record m { attributes = attrs }

unfoldable pub publisher_is_authenticated : Message → Bool
publisher_is_authenticated m = m.publisher_authenticated

-- `Message::data`
unfoldable pub data_of : (Text → Result Text Text) → Message → Result Text Text
data_of hex_decode m = hex_decode m.payload_hex

pub record PublishOptions : Type 0 where
  pub ordering_key : Option Text
  pub attributes : Map Text Text

-- `PublishOptions::ordering_key`
unfoldable pub set_ordering_key : PublishOptions → Text → PublishOptions
set_ordering_key o key = record o { ordering_key = some key }

-- `PublishOptions::attribute`
unfoldable pub attribute : PublishOptions → Text → Text → PublishOptions
attribute o key value = record o { attributes = insert key value o.attributes }

pub data Invalid : Type 0 where
  ordering_key_too_long payload_too_large too_many_attributes attribute_key_empty : Invalid
  attribute_key_too_long attribute_value_too_long : Text → Invalid
  topic_empty topic_too_long topic_characters : Invalid

unfoldable pub validate_payload : Text → Result Invalid (Unit {0})
validate_payload payload = refuse_if (ltb max_payload_bytes (length payload)) payload_too_large

-- The loop of `validate_attributes`.
unfoldable pub validate_entries : List (Text × Text) → Result Invalid (Unit {0})
validate_entries [] = ok tt
validate_entries ((k, v) ∷ attrs) = do
  refuse_if (length k == 0) attribute_key_empty
  refuse_if (ltb max_attribute_len (length k)) (attribute_key_too_long k)
  refuse_if (ltb max_attribute_len (length v)) (attribute_value_too_long k)
  validate_entries attrs

unfoldable pub validate_attributes : Map Text Text → Result Invalid (Unit {0})
unfolding validate_entries
validate_attributes attrs = do
  refuse_if (ltb max_attributes (length attrs)) too_many_attributes
  validate_entries attrs

-- `if let Some(k) = key && k.len() > MAX_ATTRIBUTE_LEN`
abbrev pub key_too_long : Option Text → Bool
key_too_long none = false
key_too_long (some k) = ltb max_attribute_len (length k)

-- `PublishOptions::validate`
unfoldable pub validate_options : PublishOptions → Result Invalid (Unit {0})
unfolding validate_attributes
validate_options o = do
  refuse_if (key_too_long o.ordering_key) ordering_key_too_long
  validate_attributes o.attributes

-- `c.is_ascii_alphanumeric() || matches!(c, '.' | '-' | '_' | ':')`. A character that is not ASCII
-- fails the test, and so does each of its bytes.
unfoldable pub topic_char : ℕ → Bool
topic_char c =
    leb b'a' c && leb c b'z'
    || leb b'A' c && leb c b'Z'
    || leb b'0' c && leb c b'9'
    || c == b'.'
    || c == b'-'
    || c == b'_'
    || c == b':'

abbrev pub all_chars : Text → Bool
all_chars [] = true
all_chars (c ∷ cs) = topic_char c && all_chars cs

unfoldable pub validate_topic : Text → Result Invalid (Unit {0})
validate_topic topic = do
  refuse_if (length topic == 0) topic_empty
  refuse_if (ltb 200 (length topic)) topic_too_long
  if all_chars topic then ok tt else err topic_characters

-- `AttributeFilter`, and `require`, which adds a clause.
pub record AttributeFilter : Type 0 where
  pub clauses : List (Text × Text)

unfoldable pub require : AttributeFilter → Text → Text → AttributeFilter
require f key value = record f { clauses = f.clauses ++ (key, value) ∷ [] }

abbrev holds : Map Text Text → Text → Text → Bool
holds attributes k v = elim (lookup k attributes) [ none ↦ false | some got ↦ same got v ]

abbrev all_hold : Map Text Text → List (Text × Text) → Bool
all_hold attributes [] = true
all_hold attributes ((k, v) ∷ clauses) = holds attributes k v && all_hold attributes clauses

-- `AttributeFilter::matches`
unfoldable pub matches : AttributeFilter → Message → Bool
matches f m = all_hold m.attributes f.clauses

abbrev ns : Text
ns = codes "ce-pubsub"

unfoldable pub log_name : Text → Text
log_name topic = ns ++ (codes ".log." ++ topic)

unfoldable pub live_topic : Text → Text
live_topic topic = ns ++ (codes ".live." ++ topic)

unfoldable pub ingest_topic : Text → Text
ingest_topic topic = ns ++ (codes ".ingest." ++ topic)

unfoldable pub control_topic : Text → Text
control_topic topic = ns ++ (codes ".ctl." ++ topic)

unfoldable pub subs_log_name : Text → Text
subs_log_name topic = ns ++ (codes ".subs." ++ topic)

unfoldable pub dead_letter_topic : Text → Text
dead_letter_topic topic = topic ++ codes ".dlq"
