-- ===== src/Caps/Links.antt =====
-- When a link is honoured, and what a minted link says.
use ce_pubsub.Prelude.{
  ℕ, ◌≡◌, ◌↔◌, refl, Bool, true, Option, none, some, List, [], ◌∷◌, ◌++◌, arith, if◌then◌else◌,
}
use ce_pubsub.Prelude.Order.{Text}
use ce_pubsub.Prelude.Result.{Result, ok, err, ◌>>=◌}
use ce_pubsub.Caps.{
  NodeId, Caveats, Iam, LinkError, unauthorized, empty_chain, no_scope, out_of_scope, or_fail,
  map_err, last, topic_allows, mint_link, inspect_link, verify_link,
}

-- A scope covers exactly the topics that it is a prefix of.
pub topic_allows_iff :
    (scope topic : Text)
    → (topic_allows scope topic ≡ true) ↔ ((rest : Text) × (topic ≡ scope ++ rest))
unfolding topic_allows
topic_allows_iff [] topic = (λ _. (topic, refl), λ _. refl)
topic_allows_iff (a ∷ scope) [] = (λ h. absurd (cc), λ (rest, e). absurd (cc))
topic_allows_iff (a ∷ scope) (b ∷ topic) =
    let ih = topic_allows_iff scope topic in
    (
      λ h. let (rest, e) = ih.0 (ground (arith, h)) in (rest, ground (arith, h, e)),
      λ (rest, e). let below = ih.1 (rest, ground (arith, e)) in ground (arith, e, below),
    )

abbrev allowed : Result LinkError (Unit {0})
allowed = ok tt

module _ (iam : Iam) (self_id : NodeId) (roots : List NodeId) (tags : List Text) (now : ℕ)
    (requester : NodeId) (ability topic token : Text) (is_revoked : NodeId → ℕ → Bool) where
  open iam use {Cert, caveats, decode_chain, authorize}

  -- What a chain must be for its link to be honoured.
  abbrev pub Honoured : List Cert → Type 0
  Honoured chain =
      (authorize self_id roots tags now requester ability chain is_revoked ≡ ok tt)
      × ((leaf : Cert) × (scope : Text) × (last chain ≡ some leaf)
          × ((caveats leaf).path_prefix ≡ some scope)
          × (topic_allows scope topic ≡ true))

  scope_iff :
      (o : Option Text)
      → ((or_fail o no_scope >>= λ scope.
            if topic_allows scope topic then allowed else err out_of_scope)
          ≡ allowed)
        ↔ ((scope : Text) × (o ≡ some scope) × (topic_allows scope topic ≡ true))
  scope_iff none = (λ h. absurd (cc), λ (scope, e, _). absurd (cc))
  scope_iff (some s) = (
    λ h. (s, refl, ground (arith, h)),
    λ (scope, e, h). let same : s ≡ scope = ground (arith, e) in rw (same, h) refl,
  )

  leaf_iff :
      (o : Option Cert)
      → ((or_fail o empty_chain >>= λ leaf. or_fail (caveats leaf).path_prefix no_scope >>= λ scope.
            if topic_allows scope topic then allowed else err out_of_scope)
          ≡ allowed)
        ↔ ((leaf : Cert) × (scope : Text) × (o ≡ some leaf)
            × ((caveats leaf).path_prefix ≡ some scope)
            × (topic_allows scope topic ≡ true))
  leaf_iff none = (λ h. absurd (cc), λ (leaf, scope, e, _, _). absurd (cc))
  leaf_iff (some c) =
      let inner = scope_iff (caveats c).path_prefix in
      (
        λ h. let (scope, p, q) = inner.0 h in (c, scope, refl, p, q),
        λ (leaf, scope, e, p, q). let same : c ≡ leaf = cc in inner.1 (scope, rw same p, q),
      )

  checked_iff :
      (auth : Result Text (Unit {0})) (chain : List Cert)
      → ((map_err unauthorized auth >>= λ _. or_fail (last chain) empty_chain >>= λ leaf.
            or_fail (caveats leaf).path_prefix no_scope >>= λ scope.
            if topic_allows scope topic then allowed else err out_of_scope)
          ≡ allowed)
        ↔ ((auth ≡ ok tt)
            × ((leaf : Cert) × (scope : Text) × (last chain ≡ some leaf)
                × ((caveats leaf).path_prefix ≡ some scope)
                × (topic_allows scope topic ≡ true)))
  checked_iff (err e) chain = (λ h. absurd (cc), λ (h, _). absurd (cc))
  checked_iff (ok u) chain =
      let inner = leaf_iff (last chain) in (λ h. (refl, inner.0 h), λ (_, h). inner.1 h)

  -- A link is honoured exactly if its token decodes, the chain is authorized for the ability, and
  -- its last certificate has a scope that is a prefix of the topic.
  pub verify_link_iff :
      (verify_link iam self_id roots tags now requester ability topic token is_revoked ≡ ok tt)
      ↔ ((chain : List Cert) × (decode_chain token ≡ ok chain) × Honoured chain)
  unfolding verify_link
  verify_link_iff = go (decode_chain token) refl
    where
      go :
          (r : Result Text (List Cert))
          → decode_chain token ≡ r
          → (verify_link iam self_id roots tags now requester ability topic token is_revoked
              ≡ ok tt)
            ↔ ((chain : List Cert) × (decode_chain token ≡ ok chain) × Honoured chain)
      go (err e) d = (λ h. absurd (cc (rw (d, verify_link) at h)), λ (chain, e', _). absurd (cc))
      go (ok chain) d =
          let inner =
            checked_iff (authorize self_id roots tags now requester ability chain is_revoked)
              chain in
          (
            λ h. (chain, d, inner.0 (rw (d, verify_link) at h)),
            λ (chain', d', h).
                let same : chain' ≡ chain = ground (arith, d, d') in
                rw (d, verify_link) (inner.1 (rw same at h)),
          )

-- What the encoding of chains and the certificates promise: they can be read back.
pub record ReadsBack (iam : Iam) : Type 0 where
  pub decode-encode : (chain : List iam.Cert) → iam.decode_chain (iam.encode_chain chain) ≡ ok chain
  pub abilities-issue :
      (owner : iam.Identity) (audience : NodeId) (names : List Text) (resource : NodeId)
      (c : Caveats) (nonce : ℕ)
      → iam.abilities (iam.issue owner audience names resource c nonce) ≡ names
  pub caveats-issue :
      (owner : iam.Identity) (audience : NodeId) (names : List Text) (resource : NodeId)
      (c : Caveats) (nonce : ℕ)
      → iam.caveats (iam.issue owner audience names resource c nonce) ≡ c

-- An inspected link shows the ability and the scope it was minted with.
pub inspect-mint :
    (iam : Iam) (laws : ReadsBack iam) (owner : iam.Identity) (audience : NodeId)
    (ability scope : Text) (not_after nonce : ℕ)
    → inspect_link iam (mint_link iam owner audience ability scope not_after nonce)
      ≡ ok (ability ∷ [], scope)
unfolding inspect_link mint_link
inspect-mint iam laws owner audience ability scope not_after nonce =
    rw (laws.decode-encode, laws.abilities-issue, laws.caveats-issue)
