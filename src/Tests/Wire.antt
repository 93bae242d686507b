-- ===== src/Tests/Wire.antt =====
-- Concrete instances of the crates that the model takes as parameters, and the wire formats and
-- links on them.
use ce_pubsub.Prelude.{none, some, List, [], ◌∷◌}
use ce_pubsub.Prelude.Order.{Text, codes}
use ce_pubsub.Prelude.Result.{ok}
use ce_pubsub.Caps.{Iam, Caveats}
use ce_pubsub.Protocol.ControlReply.{done}
use ce_pubsub.Protocol.{
  IngestReply, IngestRequest, ControlRequest, Wire, max_ingest_hex_bytes, id_too_long,
  decode_ingest, decode_ingest_hex,
}
use ce_pubsub.Protocol
use ce_pubsub.Subscription.{default_policy}

abbrev pub request : IngestRequest
request = record {
  payload_hex = codes "6869";
  grant = none;
  idempotency_key = some (codes "k");
  ordering_key = none;
  attributes = [];
}

-- Bytes that stand for themselves, with one request that is always read.
abbrev pub plain_wire : Wire
plain_wire = record {
  hex_encode = λ bytes. bytes;
  hex_decode = λ text. ok text;
  ingest_to_json = λ req. [];
  ingest_from_json = λ text. ok request;
  control_to_json = λ req. [];
  control_from_json = λ text. ok (Protocol.create_subscription text default_policy none);
  ingest_reply_to_json = λ reply. [];
  ingest_reply_from_json = λ text. ok (IngestReply.accepted 1);
  control_reply_to_json = λ reply. [];
  control_reply_from_json = λ text. ok done;
}

-- A chain of one certificate, which is written as its scope and its abilities.
abbrev pub plain_iam : Iam
plain_iam = record {
  Identity = Text;
  Cert = List Text × Caveats;
  node_id = λ id. id;
  issue = λ owner audience names resource c nonce. (names, c);
  abilities = λ c. c.0;
  caveats = λ c. c.1;
  encode_chain = λ chain. [];
  decode_chain = λ token.
      ok ((codes "pubsub:publish" ∷ [], record { not_after = 0; path_prefix = some token }) ∷ []);
  authorize = λ self roots tags now requester ability chain revoked. ok tt;
}
