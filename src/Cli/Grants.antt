-- ===== src/Cli/Grants.antt =====
-- src/main.rs: tokens that are minted and inspected, and what their owner makes of them.
use ce_pubsub.Prelude.{
  ℕ, Bool, ◌+◌, ◌%◌, ◌<◌, ◌≡◌, ◌↔◌, ◌⊎◌, refl, sym, ap, subst, ◌∙◌, inl, inr, some, some_eq, List,
  [], ◌∷◌, ◌++◌, if◌then◌else◌, ◌==◌, ==_iff, Bool-cases, arith,
}
use ce_pubsub.Prelude.Words.{u64_mod, add_u64}
use ce_pubsub.Prelude.Order.{Text, codes}
use ce_pubsub.Prelude.Result.{ok, ok-eq}
use ce_pubsub.Caps.{NodeId, Caveats, Iam, mint_link}
use ce_pubsub.Caps.Links.{ReadsBack, inspect-mint}
use ce_pubsub.Protocol.{Wire}
use ce_pubsub.Owner.{Owner, World, authorize}
use ce_pubsub.Owner.Authorize.{IsHexOf, IsTestOf, Covers, authorize_iff}
use ce_pubsub.Cli.{GrantArgs, Line, parse_audience, not_after}
use ce_pubsub.Cli.Run.{System, ability_of, run_grant, run_inspect}

-- For a time after the epoch and an expiry, both in a u64, the expiry date of a minted token is
-- 0, which means never, exactly if the expiry is 0 or the sum of both is 2 ^ 64.
pub not_after_iff :
    (now expires_in : ℕ)
    → 0 < now
    → now < u64_mod
    → expires_in < u64_mod
    → (not_after now expires_in ≡ 0) ↔ ((expires_in ≡ 0) ⊎ (now + expires_in ≡ u64_mod))
unfolding not_after add_u64
not_after_iff now expires_in pos a b = elim (Bool-cases (expires_in == 0)) [
  | inl never ↦ let none_ = (==_iff expires_in 0).0 never in rw never (λ h. inl none_, λ h. refl)
  | inr some_ ↦
      let more : 0 < expires_in = ground (arith, some_) in
      rw some_ (
        λ h. inr (omega (arith, h, pos, a, b, more)),
        λ k. elim k [ inl z ↦ absurd (omega (arith, z, more)) | inr e ↦ omega (arith, e) ],
      )
]

-- What an owner checks of a certificate that it has issued: who asks is known, and which
-- capabilities are revoked, the check of ce-iam-core passes, and the topic begins with the scope.
abbrev pub Accepted :
    (iam : Iam) → Wire → World → Owner → NodeId → iam.Cert → Text → Text → Text → ℕ → Type 0
Accepted iam wire w o self cert scope requester_hex ability now =
    (requester : NodeId) × (set : List (Text × ℕ)) × (revoked : NodeId → ℕ → Bool) × (rest : Text)
    × IsHexOf wire requester_hex requester
    × (w.revoked ≡ ok set)
    × IsTestOf wire set revoked
    × (iam.authorize self o.accepted_roots [] now requester ability (cert ∷ []) revoked ≡ ok tt)
    × (o.topic ≡ scope ++ rest)

minted-Accepted :
    (iam : Iam) (wire : Wire) (w : World) (laws : ReadsBack iam) (o : Owner) (owner : iam.Identity)
    (audience : NodeId) (granted scope : Text) (at nonce : ℕ) (requester_hex ability : Text)
    (now : ℕ)
    → IsHexOf wire o.node_id (iam.node_id owner)
    → let c : Caveats = record { not_after = at; path_prefix = some scope } in
      (authorize iam wire w o requester_hex ability
          (mint_link iam owner audience granted scope at nonce)
          now
        ≡ ok tt)
      ↔ Accepted iam wire w o
          (iam.node_id owner)
          (iam.issue owner audience (granted ∷ []) (iam.node_id owner) c nonce)
          scope
          requester_hex
          ability
          now
unfolding mint_link
minted-Accepted iam wire w laws o owner audience granted scope at nonce requester_hex ability now
      own =
    let c : Caveats = record { not_after = at; path_prefix = some scope } in
    let cert = iam.issue owner audience (granted ∷ []) (iam.node_id owner) c nonce in
    let token = mint_link iam owner audience granted scope at nonce in
    let allowed = authorize_iff iam wire w o requester_hex ability token now in
    let says = laws.caveats-issue owner audience (granted ∷ []) (iam.node_id owner) c nonce in
    let read = laws.decode-encode (cert ∷ []) in
    (
      λ h.
          let (
            requester, self, set, revoked, chain, is_requester, is_self, known, finds, decoded,
            covers,
          ) =
            allowed.0 h in
          let itself : self ≡ iam.node_id owner = ok-eq (sym is_self.0 ∙ own.0) in
          let same : chain ≡ cert ∷ [] = ok-eq (sym decoded ∙ read) in
          let is_own =
            subst (λ id. Covers iam o id requester ability now revoked (cert ∷ [])) itself
              (subst (Covers iam o self requester ability now revoked) same covers) in
          let (auth, (leaf, prefix, rest, is_last, is_prefix, e)) = is_own in
          let is_cert : cert ≡ leaf = some_eq is_last in
          let is_scope : scope ≡ prefix = some_eq (
            sym (ap (λ (x : Caveats). x.path_prefix) says)
            ∙ ap (λ (x : iam.Cert). (iam.caveats x).path_prefix) is_cert
            ∙ is_prefix) in
          (
            requester,
            set,
            revoked,
            rest,
            is_requester,
            known,
            finds,
            auth,
            e ∙ ap (λ p. p ++ rest) (sym is_scope),
          ),
      λ (requester, set, revoked, rest, is_requester, known, finds, auth, e). allowed.1 (
        requester,
        iam.node_id owner,
        set,
        revoked,
        cert ∷ [],
        is_requester,
        own,
        known,
        finds,
        read,
        (auth, (cert, scope, rest, refl, ap (λ (x : Caveats). x.path_prefix) says, e)),
      ),
    )

module _ {S : Type 0} (iam : Iam) (wire : Wire) (w : World) (system : System iam S)
    (laws : ReadsBack iam) where
  -- If chains can be read back and certificates show what they were issued with, and the identity
  -- loads and the audience parses, then `grant` prints a token for which `inspect` prints its
  -- ability, `pubsub:subscribe` or `pubsub:publish` as asked for, and its topic. An owner with
  -- that identity authorizes a requester with the token exactly if the requester's id can be
  -- parsed, its topic begins with the token's, and ce-iam-core authorizes the requester, with
  -- exactly the capabilities revoked that the node names, by one certificate, issued to the
  -- audience for that ability and topic, with the expiry date 0 if no expiry is asked for and
  -- otherwise the sum of now and the expiry, modulo 2 ^ 64.
  pub grant-authorize :
      (a : GrantArgs) (owner : iam.Identity) (audience : NodeId) (s t : S) (o : Owner)
      (requester_hex ability : Text) (now : ℕ)
      → system.identity a.data_dir ≡ ok owner
      → parse_audience iam wire a.audience owner ≡ ok audience
      → IsHexOf wire o.node_id (iam.node_id owner)
      → let at = if a.expires_in == 0 then 0 else (system.now + a.expires_in) % u64_mod in
        let granted = if a.subscribe then codes "pubsub:subscribe" else codes "pubsub:publish" in
        let c : Caveats = record { not_after = at; path_prefix = some a.topic } in
        let cert = iam.issue owner audience (granted ∷ []) (iam.node_id owner) c system.now in
        (token : Text) × (run_grant iam wire w system a s ≡ record {
          state = s;
          lines = Line.token token ∷ Line.token_info granted a.topic at ∷ [];
          result = ok tt;
        })
        × (run_inspect iam wire w system token t ≡ record {
          state = t;
          lines = Line.abilities (granted ∷ []) ∷ Line.scope a.topic ∷ [];
          result = ok tt;
        })
        × ((authorize iam wire w o requester_hex ability token now ≡ ok tt)
            ↔ Accepted iam wire w o (iam.node_id owner) cert a.topic requester_hex ability now)
  unfolding run_grant run_inspect ability_of not_after add_u64
  grant-authorize a owner audience s t o requester_hex ability now known named own =
      let at = not_after system.now a.expires_in in
      let granted = ability_of iam wire w system a.subscribe in
      let shown = inspect-mint iam laws owner audience granted a.topic at system.now in
      (
        mint_link iam owner audience granted a.topic at system.now,
        rw (known, named) refl,
        rw shown refl,
        minted-Accepted iam wire w laws o owner audience granted a.topic at system.now requester_hex
            ability now own,
      )
