-- ===== src/Tests/Links.antt =====
-- An encoding of chains of certificates.
use ce_pubsub.Prelude.{refl, List, []}
use ce_pubsub.Prelude.Order.{Text}
use ce_pubsub.Prelude.Result.{ok, ◌>>=◌}
use ce_pubsub.Caps.{Iam, Caveats}
use ce_pubsub.Tests.Codec.{Codec, nat, pair, list, via, option, text}

abbrev pub caveats_codec : Codec Caveats
caveats_codec =
    via (pair nat (option text)) (λ c. (c.not_after, c.path_prefix))
      (λ f. record { not_after = f.0; path_prefix = f.1 }) (λ c. refl)

abbrev chain_codec : Codec (List (List Text × Caveats))
chain_codec = list (pair (list text) caveats_codec)

abbrev pub true_iam : Iam
true_iam = record {
  Identity = Text;
  Cert = List Text × Caveats;
  node_id = λ id. id;
  issue = λ owner audience names resource c nonce. (names, c);
  abilities = λ c. c.0;
  caveats = λ c. c.1;
  encode_chain = λ chain. chain_codec.enc chain [];
  decode_chain = λ token. chain_codec.dec token >>= λ p. ok p.0;
  authorize = λ self roots tags now requester ability chain revoked. ok tt;
}
