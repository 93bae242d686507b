-- ===== src/Cli/Arguments.antt =====
-- src/main.rs: what the arguments of a publish stand for.
use ce_pubsub.Prelude.{
  ℕ, ◌<◌, ◌≡◌, ◌↔◌, refl, ap, subst, ◌∙◌, inl, inr, Option, none, some, List, [], ◌∷◌, ◌++◌, ◌==◌,
  if◌then◌else◌, ==_iff, Bool-cases, Option-cases, arith, length,
}
use ce_pubsub.Prelude.Order.{Text, same, text_order}
use ce_pubsub.Prelude.Map.{lookup, lookup-insert}
use ce_pubsub.Prelude.Result.{ok, ok-eq}
use ce_pubsub.Message.{PublishOptions, attribute, set_ordering_key}
use ce_pubsub.Message.Filter.{split_at}
use ce_pubsub.Message.Filter.RoundTrip.{split_at-append, zero_test}
use ce_pubsub.Message.Filter.Fuel.{HasNo, split_at-lem, some_eq}
use ce_pubsub.Client.Remote.{no_options}
use ce_pubsub.Cli.{parse_attr, add_attributes, options_of}

split_at-eq : (c : ℕ) (s a r : Text) → split_at c s ≡ some (a, r) → s ≡ a ++ c ∷ r
unfolding split_at
split_at-eq c [] a r h = absurd (cc)
split_at-eq c (b ∷ s) a r h = elim (Bool-cases (b == c)) [
  | inl here ↦
      let pair_eq : ([], s) ≡ (a, r) = some_eq (rw (here, split_at) at h) in
      let byte : b ≡ c = (==_iff b c).0 here in
      subst (λ (p : Text × Text). b ∷ s ≡ p.0 ++ c ∷ p.1) pair_eq (ap (λ x. x ∷ s) byte)
  | inr on ↦ elim (Option-cases (split_at c s)) [
    | inl gone ↦ absurd (ground (arith, rw (on, gone, split_at) at h))
    | inr ((a', r'), found) ↦
        let pair_eq : (b ∷ a', r') ≡ (a, r) = some_eq (rw (on, found, split_at) at h) in
        subst (λ (p : Text × Text). b ∷ s ≡ p.0 ++ c ∷ p.1) pair_eq
          (ap (λ t. b ∷ t) (split_at-eq c s a' r' found))
  ]
]

parse_attr_sound :
    (s k v : Text) → parse_attr s ≡ ok (k, v) → (s ≡ k ++ b'=' ∷ v) × (0 < length k) × HasNo b'=' k
unfolding parse_attr
parse_attr_sound s k v h = elim (Option-cases (split_at b'=' s)) [
  | inl gone ↦ absurd (ground (arith, rw (gone, parse_attr) at h))
  | inr ((k', v'), found) ↦ elim (Bool-cases (length k' == 0)) [
    | inl empty ↦ absurd (ground (arith, rw (found, parse_attr, empty) at h))
    | inr some_key ↦
        let pair_eq : (k', v') ≡ (k, v) = ok-eq (rw (found, parse_attr, some_key) at h) in
        let whole = split_at-eq b'=' s k' v' found in
        let (shorter, none_of) = split_at-lem b'=' s k' v' found in
        subst (λ (p : Text × Text). (s ≡ p.0 ++ b'=' ∷ p.1) × (0 < length p.0) × HasNo b'=' p.0)
          pair_eq (whole, ground (arith, some_key), none_of)
  ]
]

parse_attr_complete :
    (k v : Text) → 0 < length k → HasNo b'=' k → parse_attr (k ++ b'=' ∷ v) ≡ ok (k, v)
unfolding parse_attr
parse_attr_complete k v some_key none_of =
    rw (split_at-append b'=' k v none_of, parse_attr, zero_test (length k) some_key) refl

-- An `--attr` argument is read as a key and a value exactly if it is the key, an equals sign and
-- the value, and the key is not empty and holds no equals sign.
parse_attr_iff :
    (s k v : Text)
    → (parse_attr s ≡ ok (k, v)) ↔ ((s ≡ k ++ b'=' ∷ v) × (0 < length k) × HasNo b'=' k)
parse_attr_iff s k v = (
  parse_attr_sound s k v,
  λ (whole, some_key, none_of). ap parse_attr whole ∙ parse_attr_complete k v some_key none_of,
)

-- The value that the last `--attr` of a key gives it.
abbrev pub last_value : Text → List (Text × Text) → Option Text → Option Text
last_value key [] value = value
last_value key ((k, v) ∷ attr) value = last_value key attr (if same k key then some v else value)

lookup-add_attributes :
    (key : Text) (attr : List (Text × Text)) (opts : PublishOptions)
    → lookup key (add_attributes opts attr).attributes
      ≡ last_value key attr (lookup key opts.attributes)
unfolding add_attributes attribute
lookup-add_attributes key [] opts = refl
lookup-add_attributes key ((k, v) ∷ attr) opts =
    lookup-add_attributes key attr (attribute opts k v)
    ∙ ap (last_value key attr) (lookup-insert k key v opts.attributes)

-- An attribute of the options has the value of the last `--attr` with its key.
lookup-options_of :
    (ordering_key : Option Text) (attr : List (Text × Text)) (key : Text)
    → lookup key (options_of ordering_key attr).attributes ≡ last_value key attr none
unfolding options_of lookup set_ordering_key
lookup-options_of none attr key = lookup-add_attributes key attr no_options
lookup-options_of (some k) attr key = lookup-add_attributes key attr (set_ordering_key no_options k)
