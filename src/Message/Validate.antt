-- ===== src/Message/Validate.antt =====
-- What the validators accept.
use ce_pubsub.Prelude.{
  ◌≤◌, ◌<◌, ◌≡◌, ◌↔◌, refl, true, false, ◌&&◌, some, List, [], ◌∷◌, ◌++◌, arith, length, All, ap,
  inl, inr, ◌∙◌, Option-cases,
}
use ce_pubsub.Prelude.Order.{Text, same_refl, same_eq, text_order}
use ce_pubsub.Prelude.Map.{Map, lookup}
use ce_pubsub.Prelude.Result.{ok}
use ce_pubsub.Message.{
  PublishOptions, Message, AttributeFilter, max_attributes, max_attribute_len, validate_entries,
  validate_attributes, validate_options, key_too_long, all_chars, validate_topic, require, matches,
  holds, all_hold,
}

abbrev pub FitsEntry : Text × Text → Type 0
FitsEntry e = (0 < length e.0) × (length e.0 ≤ max_attribute_len) × (length e.1 ≤ max_attribute_len)

validate_entries_iff :
    (attrs : List (Text × Text)) → (validate_entries attrs ≡ ok tt) ↔ All FitsEntry attrs
unfolding validate_entries
validate_entries_iff [] = (λ _. tt, λ _. refl)
validate_entries_iff ((k, v) ∷ attrs) =
    let ih = validate_entries_iff attrs in
    (λ h. ground (arith, ih.0, h), λ f. ground (arith, ih.1 f.1, f.0))

-- Options pass exactly if the ordering key is not too long, there are not too many attributes,
-- and each has a key that is not empty and a key and a value that are not too long.
validate_options_iff :
    (o : PublishOptions)
    → (validate_options o ≡ ok tt) ↔ (
        (key_too_long o.ordering_key ≡ false)
        × (length o.attributes ≤ max_attributes)
        × All FitsEntry o.attributes)
unfolding validate_options validate_attributes
validate_options_iff o =
    let e = validate_entries_iff o.attributes in
    (λ h. ground (arith, e.0, h), λ f. ground (arith, e.1 f.2, f))

-- A topic name passes exactly if it has 1 to 200 bytes, each of them allowed.
validate_topic_iff :
    (topic : Text)
    → (validate_topic topic ≡ ok tt)
      ↔ ((0 < length topic) × (length topic ≤ 200) × (all_chars topic ≡ true))
unfolding validate_topic
validate_topic_iff topic = (λ h. ground (arith, h), λ f. ground (arith, f))

all_hold-snoc :
    (attributes : Map Text Text) (clauses : List (Text × Text)) (k v : Text)
    → all_hold attributes (clauses ++ (k, v) ∷ [])
      ≡ (all_hold attributes clauses && holds attributes k v)
all_hold-snoc attributes [] k v = ground arith
all_hold-snoc attributes ((j, w) ∷ clauses) k v =
    ground (arith, all_hold-snoc attributes clauses k v)

holds_iff :
    (attributes : Map Text Text) (k v : Text)
    → (holds attributes k v ≡ true) ↔ (lookup k attributes ≡ some v)
holds_iff attributes k v = (
  λ h. elim (Option-cases (lookup k attributes)) [
    | inl e ↦ absurd (ground (arith, rw (e, holds) at h))
    | inr (got, e) ↦ e ∙ ap some (same_eq got v (rw (e, holds) at h))
  ],
  λ e. rw (e, holds) (same_refl v),
)

-- A filter with one more clause matches exactly if the old one does and the message has the
-- clause's value under its key.
matches-require :
    (f : AttributeFilter) (k v : Text) (m : Message)
    → (matches (require f k v) m ≡ true) ↔ ((matches f m ≡ true) × (lookup k m.attributes ≡ some v))
unfolding matches require
matches-require f k v m =
    let split = all_hold-snoc m.attributes f.clauses k v in
    let one = holds_iff m.attributes k v in
    (λ h. ground (arith, split, one.0, h), λ p. ground (arith, split, one.1 p.1, p.0))
