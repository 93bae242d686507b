-- ===== src/Owner/Authorize.antt =====
-- src/lib.rs, `Topic::authorize`: what a requester needs to pass it.
use ce_pubsub.Prelude.{
  ℕ, ◌≡◌, ◌↔◌, ◌⊎◌, refl, subst, inl, inr, Bool, false, Option, none, some, some_eq, List, [], ◌++◌,
  Bool-cases, Option-cases, true, inl, inr, arith, ◌&&◌, ◌||◌, ◌∷◌, ◌==◌, ==_iff, length, sym, ap,
  ◌∙◌,
}
use ce_pubsub.Prelude.Order.{Text, same, same_eq, same_refl, text_order}
use ce_pubsub.Prelude.Text.{trim}
use ce_pubsub.Prelude.Result.{Result, ok, err, ok-eq, Result-cases, ◌>>=◌, >>=-eq-ok}
use ce_pubsub.Caps.{NodeId, Iam, last, map_err, or_fail, verify_link}
use ce_pubsub.Caps.Links.{verify_link_iff, topic_allows_iff}
use ce_pubsub.Protocol.{Wire}
use ce_pubsub.Owner.{
  Owner, World, Refusal, no_capability, bad_node_id, no_revocation_set, bad_link, parse_node_id,
  parse_all, is_revoked, authorize,
}

-- The text is the hex form of the 32 bytes of a node id, but for white space around it.
abbrev pub IsHexOf : Wire → Text → NodeId → Type 0
IsHexOf wire hex_id id = (wire.hex_decode (trim hex_id) ≡ ok id) × (length id ≡ 32)

-- The certificates are honoured for the ability on the topic: the check of ce-iam-core passes, with
-- the owner as itself and the requester as holder, and the last one is scoped to a prefix of the topic.
abbrev pub Covers :
    (iam : Iam) → Owner → NodeId → NodeId → Text → ℕ → (NodeId → ℕ → Bool) → List iam.Cert → Type 0
Covers iam o self requester ability now revoked chain =
    (iam.authorize self o.accepted_roots [] now requester ability chain revoked ≡ ok tt)
    × ((leaf : iam.Cert) × (scope rest : Text) × (last chain ≡ some leaf)
        × ((iam.caveats leaf).path_prefix ≡ some scope)
        × (o.topic ≡ scope ++ rest))

-- The set of revoked capabilities names this one, by its issuer in hex and its nonce.
abbrev pub Names : Wire → List (Text × ℕ) → NodeId → ℕ → Type 0
Names wire [] issuer nonce = ⊥
Names wire (entry ∷ set) issuer nonce =
    (IsHexOf wire entry.0 issuer × (entry.1 ≡ nonce)) ⊎ Names wire set issuer nonce

-- The test finds exactly the capabilities that the set names.
abbrev pub IsTestOf : Wire → List (Text × ℕ) → (NodeId → ℕ → Bool) → Type 0
IsTestOf wire set revoked =
    (issuer : NodeId) (nonce : ℕ) → (revoked issuer nonce ≡ true) ↔ Names wire set issuer nonce

-- What a requester needs for an ability at a topic: its id and the owner's can be parsed, the
-- revoked capabilities are known, and the token is that of certificates that cover it.
abbrev pub Permitted : (iam : Iam) → Wire → World → Owner → Text → Text → Text → ℕ → Type 0
Permitted iam wire w o requester_hex ability token now =
    (requester self : NodeId) × (set : List (Text × ℕ)) × (revoked : NodeId → ℕ → Bool)
    × (chain : List iam.Cert) × IsHexOf wire requester_hex requester
    × IsHexOf wire o.node_id self
    × (w.revoked ≡ ok set)
    × IsTestOf wire set revoked
    × (iam.decode_chain token ≡ ok chain)
    × Covers iam o self requester ability now revoked chain

map_err-eq-ok {ℓ} :
    {A : Type ℓ} {E F : Type 0} (f : E → F) (r : Result E A) {x : A} → map_err f r ≡ ok x → r ≡ ok x
map_err-eq-ok f (ok y) h = rw (ok-eq h) refl
map_err-eq-ok f (err why) h = absurd (cc)

or_fail-eq-ok {ℓ} :
    {A : Type ℓ} {E : Type 0} (why : E) (o : Option A) {x : A} → or_fail o why ≡ ok x → o ≡ some x
or_fail-eq-ok why none h = absurd (cc)
or_fail-eq-ok why (some y) h = rw (ok-eq h) refl

>>=-ok {ℓ} :
    {A : Type ℓ} {E : Type 0} {x : A} (r : Result E A) (next : A → Result E (Unit {0}))
    → r ≡ ok x
    → next x ≡ ok tt
    → (r >>= next) ≡ ok tt
>>=-ok (ok y) next e h = rw (ok-eq e) h
>>=-ok (err why) next e h = absurd (cc)

-- A request that carries a token which permits its requester.
abbrev pub Holds : Iam → Wire → World → Owner → Option Text → Text → Text → ℕ → Type 0
Holds iam wire w o grant requester_hex ability now =
    (token : Text) × (grant ≡ some token) × Permitted iam wire w o requester_hex ability token now

same_truth : (a b : Bool) → ((a ≡ true) ↔ (b ≡ true)) → a ≡ b
same_truth false false h = refl
same_truth false true h = absurd (cc (h.1 refl))
same_truth true b h = sym (h.0 refl)

-- There is one test of a set.
same_tests :
    (wire : Wire) (set : List (Text × ℕ)) (a b : NodeId → ℕ → Bool)
    → IsTestOf wire set a
    → IsTestOf wire set b
    → a ≡ b
same_tests wire set a b is_a is_b = λ j issuer nonce.
    same_truth (a issuer nonce) (b issuer nonce)
      (
        λ h. (is_b issuer nonce).1 ((is_a issuer nonce).0 h),
        λ h. (is_a issuer nonce).1 ((is_b issuer nonce).0 h),
      )
      j

module _ (iam : Iam) (wire : Wire) (w : World) where
  parse_node_id_iff :
      (hex_id : Text) (id : NodeId)
      → (parse_node_id iam wire w hex_id ≡ some id) ↔ IsHexOf wire hex_id id
  unfolding parse_node_id
  parse_node_id_iff hex_id id = elim (Result-cases (wire.hex_decode (trim hex_id))) [
    | inl (why, bad) ↦ (λ h. absurd (cc (rw (bad, parse_node_id) at h)), λ (good, n). absurd (cc))
    | inr (bytes, good) ↦ elim (Bool-cases (length bytes == 32)) [
      | inl long ↦
          let n : length bytes ≡ 32 = (==_iff (length bytes) 32).0 long in
          (
            λ h.
                let same : bytes ≡ id = some_eq (rw (good, parse_node_id, long) at h) in
                rw (sym same) (good, n),
            λ (good', n').
                let same : bytes ≡ id = ok-eq (sym good ∙ good') in
                rw (good, parse_node_id, long, same) refl,
          )
      | inr short ↦ (
        λ h. absurd (cc (rw (good, parse_node_id, short) at h)),
        λ (good', n').
            let same : bytes ≡ id = ok-eq (sym good ∙ good') in
            absurd (cc (short, (==_iff (length bytes) 32).1 (rw same n'))),
      )
    ]
  ]

  is_revoked_iff :
      (set : List (Text × ℕ)) (issuer : NodeId) (nonce : ℕ)
      → (is_revoked iam wire w (parse_all iam wire w set) issuer nonce ≡ true)
        ↔ Names wire set issuer nonce
  unfolding is_revoked parse_all
  is_revoked_iff [] issuer nonce = (λ h. absurd (cc), λ none_. absurd none_)
  is_revoked_iff ((hex_id, n) ∷ set) issuer nonce =
      let ih = is_revoked_iff set issuer nonce in
      elim (Option-cases (parse_node_id iam wire w hex_id)) [
        | inl bad ↦ (
          λ h. inr (ih.0 (rw (parse_all, bad) at h)),
          λ k. elim k [
            | inl (is_id, _) ↦ absurd (cc (bad, (parse_node_id_iff hex_id issuer).1 is_id))
            | inr rest ↦ rw (parse_all, bad) (ih.1 rest)
          ],
        )
        | inr (id, good) ↦ (
          λ h.
              let h' : ((same id issuer && n == nonce)
                    || is_revoked iam wire w (parse_all iam wire w set) issuer nonce)
                  ≡ true =
                rw (parse_all, good) at h in
              elim (Bool-cases (same id issuer && n == nonce)) [
                | inl here ↦
                    let is_issuer : id ≡ issuer = same_eq id issuer (ground (arith, here)) in
                    inl (
                      (parse_node_id_iff hex_id issuer).0 (good ∙ ap some is_issuer),
                      ground (arith, here),
                    )
                | inr there ↦ inr (ih.0 (ground (arith, h', there)))
              ],
          λ k. elim k [
            | inl (is_id, e) ↦
                let is_issuer : id ≡ issuer =
                  some_eq (sym good ∙ (parse_node_id_iff hex_id issuer).1 is_id) in
                rw (parse_all, good, is_issuer, e) (ground (arith, same_refl issuer))
            | inr rest ↦ rw (parse_all, good) (ground (arith, ih.1 rest))
          ],
        )
      ]

  -- The link that `authorize` verifies, once ids and revocations are known.
  link_iff :
      (o : Owner) (requester self : NodeId) (ability token : Text) (now : ℕ) (set : List (Text × ℕ))
      → let revoked = is_revoked iam wire w (parse_all iam wire w set) in
        (verify_link iam self o.accepted_roots [] now requester ability o.topic token revoked
          ≡ ok tt)
        ↔ ((chain : List iam.Cert) × (iam.decode_chain token ≡ ok chain)
            × Covers iam o self requester ability now revoked chain)
  link_iff o requester self ability token now set =
      let revoked = is_revoked iam wire w (parse_all iam wire w set) in
      let link =
        verify_link_iff iam self o.accepted_roots [] now requester ability o.topic token revoked in
      (
        λ h.
            let (chain, decoded, (auth, (leaf, scope, is_last, prefix, covers))) = link.0 h in
            let (rest, e) = (topic_allows_iff scope o.topic).0 covers in
            (chain, decoded, (auth, (leaf, scope, rest, is_last, prefix, e))),
        λ (chain, decoded, (auth, (leaf, scope, rest, is_last, prefix, e))). link.1 (
          chain,
          decoded,
          (auth, (leaf, scope, is_last, prefix, (topic_allows_iff scope o.topic).1 (rest, e))),
        ),
      )

  authorize-Permitted :
      (o : Owner) (requester_hex ability token : Text) (now : ℕ)
      → authorize iam wire w o requester_hex ability token now ≡ ok tt
      → Permitted iam wire w o requester_hex ability token now
  unfolding authorize
  authorize-Permitted o requester_hex ability token now h =
      let (requester, p, h1) =
        >>=-eq-ok (or_fail (parse_node_id iam wire w requester_hex) bad_node_id) _ h in
      let (self, q, h2) =
        >>=-eq-ok (or_fail (parse_node_id iam wire w o.node_id) bad_node_id) _ h1 in
      let (set, known, h3) = >>=-eq-ok (map_err no_revocation_set w.revoked) _ h2 in
      let verified = map_err-eq-ok bad_link _ h3 in
      let (chain, decoded, covers) = (link_iff o requester self ability token now set).0 verified in
      (
        requester,
        self,
        set,
        is_revoked iam wire w (parse_all iam wire w set),
        chain,
        (parse_node_id_iff requester_hex requester).0 (or_fail-eq-ok bad_node_id _ p),
        (parse_node_id_iff o.node_id self).0 (or_fail-eq-ok bad_node_id _ q),
        map_err-eq-ok no_revocation_set w.revoked known,
        is_revoked_iff set,
        decoded,
        covers,
      )

  -- A requester is authorized exactly if it is permitted.
  pub authorize_iff :
      (o : Owner) (requester_hex ability token : Text) (now : ℕ)
      → (authorize iam wire w o requester_hex ability token now ≡ ok tt)
        ↔ Permitted iam wire w o requester_hex ability token now
  unfolding authorize
  authorize_iff o requester_hex ability token now = (
    authorize-Permitted o requester_hex ability token now,
    λ (requester, self, set, revoked, chain, is_requester, is_self, known, finds, decoded, covers).
        let at_requester = (parse_node_id_iff requester_hex requester).1 is_requester in
        let at_self = (parse_node_id_iff o.node_id self).1 is_self in
        let verified = (link_iff o requester self ability token now set).1 (
          chain,
          decoded,
          subst (λ test. Covers iam o self requester ability now test chain)
              (same_tests wire set revoked (is_revoked iam wire w (parse_all iam wire w set)) finds
                (is_revoked_iff set))
              covers,
        ) in
        rw (authorize, at_requester, at_self)
          (>>=-ok (map_err no_revocation_set w.revoked) _ (ap (map_err no_revocation_set) known)
            (ap (map_err bad_link) verified)),
  )

  -- The check that both handlers make of a grant passes exactly if its token permits the requester.
  pub check_grant :
      (o : Owner) (grant : Option Text) (requester_hex ability : Text) (now : ℕ)
      → let check = or_fail grant no_capability >>= λ token.
          authorize iam wire w o requester_hex ability token now in
        (Holds iam wire w o grant requester_hex ability now × (check ≡ ok tt))
        ⊎ (¬ Holds iam wire w o grant requester_hex ability now
            × ((why : Refusal) × (check ≡ err why)))
  check_grant o none requester_hex ability now =
      inr (λ (token, e, _). absurd (cc), (no_capability, refl))
  check_grant o (some token) requester_hex ability now =
      let allowed = authorize_iff o requester_hex ability token now in
      elim (Result-cases (authorize iam wire w o requester_hex ability token now)) [
        | inr (u, good) ↦ inl ((token, refl, allowed.0 good), good)
        | inl (why, bad) ↦ inr (
          λ (token', e, permitted).
              let same : token' ≡ token = some_eq (sym e) in
              absurd (
                cc (
                  bad,
                  allowed.1 (
                      subst (λ t. Permitted iam wire w o requester_hex ability t now) same
                        permitted),
                )),
          (why, bad),
        )
      ]
