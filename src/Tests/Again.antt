-- ===== src/Tests/Again.antt =====
-- Frames that arrive twice.
use ce_pubsub.Prelude.{◌≡◌, refl, [], ◌∷◌, arith}
use ce_pubsub.Prelude.Order.{codes, text_order}
use ce_pubsub.Prelude.Map.{lookup}
use ce_pubsub.Message.{ingest_topic, control_topic}
use ce_pubsub.Dedup
use ce_pubsub.Owner.{dedup_key, ingest}
use ce_pubsub.Owner.Ingest.{answer_again}
use ce_pubsub.Owner.Serve.{worded, serve_frame}
use ce_pubsub.Network.Again.{request_frame, control_again, ingest_again}
use ce_pubsub.Tests.Wire.{plain_wire, plain_iam, request}
use ce_pubsub.Tests.Owner.{world}
use ce_pubsub.Tests.Network.{words, node}

control_again_example :
    let topic = control_topic (codes "t") in
    let n' =
      (serve_frame plain_iam plain_wire world words node
        (request_frame topic 5 (codes "s2") (codes "p"))
        100).0 in
    serve_frame plain_iam plain_wire world words n'
      (request_frame topic 5 (codes "s2") (codes "p"))
      150
    ≡ (n', [])
unfolding Dedup.seen lookup
control_again_example =
    control_again plain_iam plain_wire world words node 5 100 150 (codes "s2") (codes "s2")
      (codes "p") (codes "p") refl (omega arith)

ingest_again_example :
    let topic = ingest_topic (codes "t") in
    let reply = (ingest plain_iam plain_wire world node.owner request 5 (codes "p") 100).1 in
    let (n', first) =
      serve_frame plain_iam plain_wire world words node
        (request_frame topic 5 (codes "b") (codes "p"))
        100 in
    (first ≡ (5, plain_wire.ingest_reply_to_json (worded words.refusal reply)) ∷ [])
    × (serve_frame plain_iam plain_wire world words n'
          (request_frame topic 6 (codes "b") (codes "p"))
          150
        ≡ (
          n',
          (6, plain_wire.ingest_reply_to_json (worded words.refusal (answer_again reply))) ∷ [],
        ))
unfolding ce_pubsub.Protocol.decode_ingest_hex ce_pubsub.Protocol.decode_ingest dedup_key Dedup.get
    lookup
ingest_again_example =
    ingest_again plain_iam plain_wire world words node 5 6 100 150 (codes "b") (codes "b")
      (codes "p") (codes "p") request request refl refl refl refl refl
