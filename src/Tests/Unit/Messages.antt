-- ===== src/Tests/Unit/Messages.antt =====
-- The tests of src/message.rs, but for those of serde and of payloads of ten megabytes, and the
-- test of scopes in src/caps.rs.
use ce_pubsub.Prelude.{
  ℕ, zero, suc, ◌+◌, ◌≡◌, refl, Bool, true, false, not, ◌&&◌, ◌==◌, Option, none, some, List, [],
  ◌∷◌, ◌++◌, length,
}
use ce_pubsub.Prelude.Order.{Text, codes, same, text_order}
use ce_pubsub.Prelude.Text.{decimal}
use ce_pubsub.Prelude.Map.{Map, insert, lookup}
use ce_pubsub.Prelude.Result.{Result, ok, err}
use ce_pubsub.Message.{
  Message, PublishOptions, new, authenticated, with_ordering_key, with_attributes,
  publisher_is_authenticated, data_of, set_ordering_key, attribute, validate_attributes,
  validate_options, validate_topic, max_attribute_len, max_attributes, matches, require,
  AttributeFilter, log_name, live_topic, ingest_topic, control_topic, subs_log_name,
  dead_letter_topic,
}
use ce_pubsub.Message.Filter.{any}
use ce_pubsub.Caps.{topic_allows}
use ce_pubsub.Cli.{text}
use ce_pubsub.Client.Remote.{no_options}
use ce_pubsub.Tests.Unit.{is_ok}
use ce_pubsub.Tests.Hex.{hex_encode, hex_decode}
use ce_pubsub.Tests.Faithful.{true_wire}

abbrev repeat : ℕ → ℕ → Text
repeat c zero = []
repeat c (suc n) = c ∷ repeat c n

abbrev reads : Result Text Text → Text → Bool
reads (ok bytes) expected = same bytes expected
reads (err e) expected = false

abbrev is_key : Option Text → Text → Bool
is_key none expected = false
is_key (some key) expected = same key expected

abbrev message_roundtrips_payload : Bool
message_roundtrips_payload =
    let m = new hex_encode 7 (codes "abc") (codes "hello world") 1_700_000_000 in
    m.cursor == 7
    && (same m.publisher (codes "abc")
        && (reads (data_of hex_decode m) (codes "hello world")
            && same (text (λ bytes. bytes) true_wire m) (codes "hello world")))

message_roundtrips_payload_passes : message_roundtrips_payload ≡ true
unfolding new ce_pubsub.Prelude.Order.text_cmp data_of text
message_roundtrips_payload_passes = refl

abbrev validate_topic_accepts_reasonable_names : Bool
validate_topic_accepts_reasonable_names =
    is_ok (validate_topic (codes "orders"))
    && (is_ok (validate_topic (codes "orders.eu"))
        && (is_ok (validate_topic (codes "a-b_c:d"))
            && (is_ok (validate_topic (codes "T0pic")) && is_ok (validate_topic (codes "x")))))

validate_topic_accepts_reasonable_names_passes : validate_topic_accepts_reasonable_names ≡ true
unfolding validate_topic ce_pubsub.Message.topic_char
validate_topic_accepts_reasonable_names_passes = refl

abbrev validate_topic_rejects_bad_names : Bool
validate_topic_rejects_bad_names =
    not (is_ok (validate_topic []))
    && (not (is_ok (validate_topic (codes "has space")))
        && (not (is_ok (validate_topic (codes "slash/here")))
            && not (is_ok (validate_topic (repeat 120 201)))))

validate_topic_rejects_bad_names_passes : validate_topic_rejects_bad_names ≡ true
unfolding validate_topic ce_pubsub.Message.topic_char
validate_topic_rejects_bad_names_passes = refl

abbrev starts_with_ns : List Text → Bool
starts_with_ns [] = true
starts_with_ns (n ∷ names) = topic_allows (codes "ce-pubsub.") n && starts_with_ns names

abbrev none_is : Text → List Text → Bool
none_is n [] = true
none_is n (k ∷ names) = not (same n k) && none_is n names

abbrev all_distinct : List Text → Bool
all_distinct [] = true
all_distinct (n ∷ names) = none_is n names && all_distinct names

abbrev mesh_names_are_namespaced_and_distinct : Bool
mesh_names_are_namespaced_and_distinct =
    let t = codes "t" in
    let names =
      log_name t ∷ live_topic t ∷ ingest_topic t ∷ control_topic t ∷ subs_log_name t ∷ [] in
    starts_with_ns names && all_distinct names

mesh_names_are_namespaced_and_distinct_passes : mesh_names_are_namespaced_and_distinct ≡ true
unfolding topic_allows log_name live_topic ingest_topic control_topic subs_log_name
    ce_pubsub.Prelude.Order.text_cmp
mesh_names_are_namespaced_and_distinct_passes = refl

abbrev dead_letter_name : Bool
dead_letter_name = same (dead_letter_topic (codes "orders")) (codes "orders.dlq")

dead_letter_name_passes : dead_letter_name ≡ true
unfolding ce_pubsub.Prelude.Order.text_cmp dead_letter_topic
dead_letter_name_passes = refl

-- The attributes `k0`, `k1` and so on, as many as the loop makes.
abbrev numbered : ℕ → Map Text Text
numbered zero = []
numbered (suc n) = insert (codes "k" ++ decimal n) (codes "v") (numbered n)

abbrev attribute_bounds_enforced : Bool
attribute_bounds_enforced =
    is_ok (validate_attributes (insert (codes "k") (codes "v") []))
    && (not (is_ok (validate_attributes (insert [] (codes "v") [])))
        && (not (
              is_ok
                (validate_attributes (insert (codes "k") (repeat 120 (max_attribute_len + 1)) [])))
            && not (is_ok (validate_attributes (numbered (max_attributes + 1))))))

attribute_bounds_enforced_passes : attribute_bounds_enforced ≡ true
unfolding validate_attributes insert ce_pubsub.Prelude.Order.text_cmp decimal
attribute_bounds_enforced_passes = refl

abbrev publish_options_builder_and_validate : Bool
publish_options_builder_and_validate =
    let opts =
      attribute
        (attribute (set_ordering_key no_options (codes "region-eu")) (codes "kind") (codes "order"))
        (codes "priority") (codes "high") in
    let bad = set_ordering_key no_options (repeat 120 (max_attribute_len + 1)) in
    is_key opts.ordering_key (codes "region-eu")
    && (length opts.attributes == 2
        && (is_ok (validate_options opts) && not (is_ok (validate_options bad))))

publish_options_builder_and_validate_passes : publish_options_builder_and_validate ≡ true
unfolding attribute set_ordering_key ce_pubsub.Prelude.Order.text_cmp insert validate_options
publish_options_builder_and_validate_passes = refl

abbrev same_map : Map Text Text → Map Text Text → Bool
same_map [] [] = true
same_map [] (e ∷ es) = false
same_map (d ∷ ds) [] = false
same_map (d ∷ ds) (e ∷ es) = same d.0 e.0 && (same d.1 e.1 && same_map ds es)

abbrev message_builders_set_fields : Bool
message_builders_set_fields =
    let attrs = insert (codes "kind") (codes "order") [] in
    let m =
      authenticated
        (with_attributes
          (with_ordering_key (new hex_encode 1 (codes "n") (codes "hi") 1) (codes "k1")) attrs)
        true in
    is_key m.ordering_key (codes "k1")
    && (same_map m.attributes attrs && publisher_is_authenticated m)

message_builders_set_fields_passes : message_builders_set_fields ≡ true
unfolding authenticated with_attributes with_ordering_key ce_pubsub.Prelude.Order.text_cmp lookup
    insert publisher_is_authenticated
message_builders_set_fields_passes = refl

-- `attribute_for_test`
abbrev attribute_for_test : Message → Text → Text → Message
attribute_for_test m k v = record m { attributes = insert k v m.attributes }

abbrev plain : Message
plain = new hex_encode 1 (codes "n") (codes "x") 1

abbrev attribute_filter_matches_exact : Bool
attribute_filter_matches_exact =
    let m = attribute_for_test plain (codes "kind") (codes "order") in
    let m2 = attribute_for_test m (codes "priority") (codes "high") in
    let orders = require any (codes "kind") (codes "order") in
    matches any m
    && (matches orders m
        && (not (matches (require any (codes "kind") (codes "payment")) m)
            && (not (matches (require any (codes "missing") (codes "x")) m)
                && (matches (require orders (codes "priority") (codes "high")) m2
                    && not (matches (require orders (codes "priority") (codes "low")) m2)))))

attribute_filter_matches_exact_passes : attribute_filter_matches_exact ≡ true
unfolding matches require lookup insert new ce_pubsub.Prelude.Order.text_cmp
attribute_filter_matches_exact_passes = refl

abbrev topic_allows_prefix : Bool
topic_allows_prefix =
    topic_allows (codes "orders") (codes "orders")
    && (topic_allows (codes "orders") (codes "orders.eu")
        && (topic_allows [] (codes "anything")
            && not (topic_allows (codes "orders") (codes "payments"))))

topic_allows_prefix_passes : topic_allows_prefix ≡ true
unfolding topic_allows
topic_allows_prefix_passes = refl
