-- ===== src/Caps.antt =====
-- src/caps.rs: capability links. The certificates, their encoding and their check are those of the
-- crates ce-iam-core and ce-identity: parameters, gathered in a record of operations.
pub mod Links
use ce_pubsub.Prelude.{
  ℕ, Bool, true, false, ◌&&◌, Option, none, some, List, [], ◌∷◌, ◌==◌, if◌then◌else◌,
}
use mathlib.Core.Option
use ce_pubsub.Prelude.Order.{Text, codes}
use ce_pubsub.Prelude.Result.{Result, ok, err, ◌>>=◌, ◌>>◌}

abbrev pub ability_publish : Text
ability_publish = codes "pubsub:publish"

abbrev pub ability_subscribe : Text
ability_subscribe = codes "pubsub:subscribe"

-- A node id: 32 bytes.
abbrev pub NodeId : Type 0
NodeId = Text

-- `topic.starts_with(scope_topic)`
unfoldable pub topic_allows : Text → Text → Bool
topic_allows [] topic = true
topic_allows (a ∷ scope) [] = false
topic_allows (a ∷ scope) (b ∷ topic) = a == b && topic_allows scope topic

-- The caveats and the arguments of `SignedCapability::issue` that the source sets.
pub record Caveats : Type 0 where
  pub not_after : ℕ
  pub path_prefix : Option Text

pub data LinkError : Type 0 where
  bad_token unauthorized : Text → LinkError
  empty_chain no_scope out_of_scope : LinkError

-- `ce_iam_core`: a certificate shows its abilities and its caveats.
pub record Iam : Type 1 where
  pub Identity : Type 0
  pub Cert : Type 0
  pub node_id : Identity → NodeId
  pub issue : Identity → NodeId → List Text → NodeId → Caveats → ℕ → Cert
  pub abilities : Cert → List Text
  pub caveats : Cert → Caveats
  pub encode_chain : List Cert → Text
  pub decode_chain : Text → Result Text (List Cert)
  -- The arguments of `authorize`: own id, accepted roots, tags, time, requester, ability, chain
  -- and the revocation test.
  pub authorize :
      NodeId
      → List NodeId
      → List Text
      → ℕ
      → NodeId
      → Text
      → List Cert
      → (NodeId → ℕ → Bool)
      → Result Text (Unit {0})

abbrev pub or_fail {ℓ} : {A : Type ℓ} {E : Type 0} → Option A → E → Result E A
or_fail none e = err e
or_fail (some a) e = ok a

abbrev pub map_err {ℓ} : {A : Type ℓ} {E F : Type 0} → (E → F) → Result E A → Result F A
map_err f (ok a) = ok a
map_err f (err e) = err (f e)

-- `chain.last()`
abbrev pub last {ℓ} : {A : Type ℓ} → List A → Option A
last [] = none
last (x ∷ []) = some x
last (x ∷ y ∷ xs) = last (y ∷ xs)

module _ (iam : Iam) where
  open iam use {
    Identity, Cert, node_id, issue, abilities, caveats, encode_chain, decode_chain, authorize,
  }

  unfoldable pub mint_link : Identity → NodeId → Text → Text → ℕ → ℕ → Text
  mint_link owner audience ability scope_topic not_after nonce = encode_chain (
      issue owner audience (ability ∷ []) (node_id owner)
        (record { not_after = not_after; path_prefix = some scope_topic }) nonce
      ∷ [])

  unfoldable pub inspect_link : Text → Result LinkError (List Text × Text)
  inspect_link token = do
    chain ← map_err bad_token (decode_chain token)
    leaf ← or_fail (last chain) empty_chain
    ok (abilities leaf, Option.get_or (caveats leaf).path_prefix [])

  unfoldable pub verify_link :
      NodeId
      → List NodeId
      → List Text
      → ℕ
      → NodeId
      → Text
      → Text
      → Text
      → (NodeId → ℕ → Bool)
      → Result LinkError (Unit {0})
  verify_link self_id accepted_roots self_tags now requester ability topic token is_revoked = do
    chain ← map_err bad_token (decode_chain token)
    map_err unauthorized
        (authorize self_id accepted_roots self_tags now requester ability chain is_revoked)
    leaf ← or_fail (last chain) empty_chain
    scope ← or_fail (caveats leaf).path_prefix no_scope
    if topic_allows scope topic then ok tt else err out_of_scope
