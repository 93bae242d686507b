-- ===== src/Tests/Grants.antt =====
-- A certificate check that looks at what a certificate of one's own says, and a link minted for it.
use ce_pubsub.Prelude.{
  ℕ, zero, suc, ◌≡◌, ◌↔◌, ◌⊎◌, refl, Bool, true, false, Option, none, some, not, ◌&&◌, ◌||◌, ◌==◌,
  List, [], ◌∷◌, ◌++◌, arith, leb, if◌then◌else◌,
}
use ce_pubsub.Prelude.Order.{Text, codes, same, text_order}
use ce_pubsub.Prelude.Result.{Result, ok, err, ◌>>=◌}
use ce_pubsub.Caps.{Iam, Caveats, mint_link}
use ce_pubsub.Caps.Links.{ReadsBack}
use ce_pubsub.Log.{empty_log}
use ce_pubsub.Protocol
use ce_pubsub.Protocol.ControlReply.{rejected}
use ce_pubsub.Protocol.{ControlRequest, IngestRequest, grant_of, decode_control}
use ce_pubsub.Owner.{Owner, Refusal, authorize, apply_ingest, message_of, append_and_fanout}
use ce_pubsub.Owner.Authorize.{Holds}
use ce_pubsub.Owner.Admit.{apply_ingest-gate}
use ce_pubsub.Owner.Control.{refused, handle_control, control}
use ce_pubsub.Owner.Control.Gate.{handle_control-gate}
use ce_pubsub.Cli.{GrantArgs, Line}
use ce_pubsub.Cli.Run.{System, run_grant, run_inspect}
use ce_pubsub.Cli.Grants.{Accepted, grant-authorize}
use ce_pubsub.Network.{Net, direct}
use ce_pubsub.Tests.Hex.{hex_encode, hex_decode-hex_encode}
use ce_pubsub.Tests.Wire.{request}
use ce_pubsub.Tests.Owner.{world, owner}
use ce_pubsub.Tests.Faithful.{true_wire}
use ce_pubsub.Tests.Network.{words, node}
use ce_pubsub.Tests.Sound.{new_logs}
use ce_pubsub.Tests.Codec.{Codec, nat, pair, list, text}
use ce_pubsub.Tests.Links.{caveats_codec}

-- Audience, abilities, caveats and nonce of a certificate.
abbrev Cert : Type 0
Cert = Text × (List Text × (Caveats × ℕ))

abbrev certs_codec : Codec (List Cert)
certs_codec = list (pair text (pair (list text) (pair caveats_codec nat)))

abbrev grants_one : List Text → Text → Bool
grants_one [] ability = false
grants_one (granted ∷ names) ability = same ability granted || grants_one names ability

abbrev check : Text → ℕ → Text → Text → List Cert → (Text → ℕ → Bool) → Result Text (Unit {0})
check self now requester ability [] revoked = err []
check self now requester ability ((audience, (names, (c, nonce))) ∷ chain) revoked =
    if same requester audience
      && (grants_one names ability
          && ((c.not_after == 0 || leb now c.not_after) && not (revoked self nonce)))
    then ok tt
    else err []

abbrev checking_iam : Iam
checking_iam = record {
  Identity = Text;
  Cert = Cert;
  node_id = λ id. id;
  issue = λ owner audience names resource c nonce. (audience, (names, (c, nonce)));
  abilities = λ cert. cert.1.0;
  caveats = λ cert. cert.1.1.0;
  encode_chain = λ chain. certs_codec.enc chain [];
  decode_chain = λ token. certs_codec.dec token >>= λ p. ok p.0;
  authorize = λ self roots tags now requester ability chain revoked.
      check self now requester ability chain revoked;
}

checking_iam-ReadsBack : ReadsBack checking_iam
checking_iam-ReadsBack = record {
  decode-encode = λ chain. rw (certs_codec.back chain []) refl;
  abilities-issue = λ owner audience names resource c nonce. refl;
  caveats-issue = λ owner audience names resource c nonce. refl;
}

abbrev copies : ℕ → ℕ → Text
copies zero b = []
copies (suc n) b = b ∷ copies n b

-- A node id: 32 bytes.
abbrev id_of : ℕ → Text
id_of = copies 32

-- A topic that requires capabilities, whose owner is a node of 32 bytes.
abbrev gated : Owner
gated = record owner {
  node_id = hex_encode (id_of 7);
  topic = codes "orders.eu";
  require_cap = true;
}

abbrev listing_token : Option Text
listing_token =
    some
      (mint_link checking_iam (id_of 7) (id_of 9) (codes "pubsub:subscribe") (codes "orders") 0 1)

abbrev listing : ControlRequest
listing = Protocol.list_subscriptions listing_token

abbrev body : Text
body = true_wire.control_to_json listing

handle_control-gate_example :
    (Holds checking_iam true_wire world gated
        (grant_of listing)
        (hex_encode (id_of 9))
        (codes "pubsub:subscribe")
        100
      × (handle_control checking_iam true_wire world gated
            (hex_encode body)
            (hex_encode (id_of 9))
            100
          ≡ control checking_iam true_wire world gated listing 100))
    ⊎ (¬ Holds checking_iam true_wire world gated
          (grant_of listing)
          (hex_encode (id_of 9))
          (codes "pubsub:subscribe")
          100
        × ((why : Refusal) × (handle_control checking_iam true_wire world gated
                (hex_encode body)
                (hex_encode (id_of 9))
                100
              ≡ (gated, rejected (refused why)))))
unfolding decode_control mint_link
handle_control-gate_example =
    handle_control-gate checking_iam true_wire world gated (hex_encode body) (hex_encode (id_of 9))
      body 100 listing refl (hex_decode-hex_encode body) refl (λ grant e. absurd (cc))

abbrev publishing : IngestRequest
publishing = record request { grant = listing_token }

apply_ingest-gate_example :
    (Holds checking_iam true_wire world gated publishing.grant
        (hex_encode (id_of 9))
        (codes "pubsub:publish")
        100
      × (apply_ingest checking_iam true_wire world gated publishing (hex_encode (id_of 9)) 100
          ≡ (elim (message_of checking_iam true_wire world publishing
              (hex_encode (id_of 9))
              100
              true) [
                | err why ↦ (gated, err why)
                | ok msg ↦ append_and_fanout checking_iam true_wire world gated msg
              ])))
    ⊎ (¬ Holds checking_iam true_wire world gated publishing.grant
          (hex_encode (id_of 9))
          (codes "pubsub:publish")
          100
        × ((why : Refusal) × (apply_ingest checking_iam true_wire world gated publishing
                (hex_encode (id_of 9))
                100
              ≡ (gated, err why))))
apply_ingest-gate_example =
    apply_ingest-gate checking_iam true_wire world gated publishing (hex_encode (id_of 9)) 100 refl

abbrev system : System checking_iam Net
system = record {
  connect = λ s. (s, ok tt);
  node_id = codes "n";
  mesh = direct checking_iam true_wire world words (codes "p") 100;
  opened = λ topic. new_logs;
  open_stream = λ name. ok [];
  reader = λ topic owner. record { log = λ i. empty_log; version = λ i. 0; late = λ i. true };
  fuel = 9;
  local = λ topic. ok empty_log;
  read_file = λ path. err (codes "no file");
  identity = λ dir. ok (id_of 7);
  now = 100;
  lossy = λ bytes. bytes;
}

abbrev grant_args : GrantArgs
grant_args = record {
  topic = codes "orders";
  subscribe = true;
  expires_in = 60;
  audience = some (hex_encode (id_of 9));
  data_dir = none;
}

grant-authorize_example :
    let c : Caveats = record { not_after = 160; path_prefix = some (codes "orders") } in
    let cert =
      checking_iam.issue (id_of 7) (id_of 9) (codes "pubsub:subscribe" ∷ []) (id_of 7) c 100 in
    (token : Text) × (run_grant checking_iam true_wire world system grant_args (node, 7) ≡ record {
      state = (node, 7);
      lines =
          Line.token token ∷ Line.token_info (codes "pubsub:subscribe") (codes "orders") 160 ∷ [];
      result = ok tt;
    })
    × (run_inspect checking_iam true_wire world system token (node, 7) ≡ record {
      state = (node, 7);
      lines = Line.abilities (codes "pubsub:subscribe" ∷ []) ∷ Line.scope (codes "orders") ∷ [];
      result = ok tt;
    })
    × ((authorize checking_iam true_wire world gated
            (hex_encode (id_of 9))
            (codes "pubsub:subscribe")
            token
            150
          ≡ ok tt)
        ↔ Accepted checking_iam true_wire world gated
            (id_of 7)
            cert
            (codes "orders")
            (hex_encode (id_of 9))
            (codes "pubsub:subscribe")
            150)
unfolding ce_pubsub.Cli.parse_audience ce_pubsub.Prelude.Text.trim
grant-authorize_example =
    grant-authorize checking_iam true_wire world system checking_iam-ReadsBack grant_args (id_of 7)
      (id_of 9) (node, 7) (node, 7) gated (hex_encode (id_of 9)) (codes "pubsub:subscribe") 150 refl
      refl (refl, refl)
