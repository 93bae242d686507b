-- ===== src/Tests/Sound.antt =====
-- An owner that is created, serves frames and refuses a publish.
use ce_pubsub.Prelude.{
  ◌+◌, ◌≤◌, refl, inl, subst, true, false, some, List, [], ◌∷◌, arith, length, ℕ,
}
use ce_pubsub.Prelude.Order.{codes, text_order}
use ce_pubsub.Prelude.Map.{lookup}
use ce_pubsub.Prelude.Result.{ok, ok-eq}
use ce_pubsub.Log.{empty_log}
use ce_pubsub.Log.Invariant.{IsWellFormed}
use ce_pubsub.Dedup.{new_cache, new_tokens}
use ce_pubsub.Subscription.Registry
use ce_pubsub.Message.{ingest_topic}
use ce_pubsub.Protocol.{IngestReply}
use ce_pubsub.Owner.{handle_ingest, Refusal, dedup_capacity, dedup_ttl_secs}
use ce_pubsub.Owner.Serve.{Frame, Node, serve}
use ce_pubsub.Owner.Topic.{Opened}
use ce_pubsub.Owner.Sound.{StepsLog, reach}
use ce_pubsub.Owner.Sound.Loops.{IsSoundNode, OpensSound, serve-IsSound}
use ce_pubsub.Owner.Refuse.{Untouched, handle_ingest-Untouched}
use ce_pubsub.Tests.Wire.{plain_wire, plain_iam}
use ce_pubsub.Tests.Owner.{world, world-StepsSubs, owner, owner-IsWellFormed, owner-IsBounded}
use ce_pubsub.Tests.Network.{words, node}

pub world-StepsLog : StepsLog world
world-StepsLog = record { steps = λ l op. inl refl }

node-IsSound : IsSoundNode node
unfolding lookup
node-IsSound = record {
  owner = record {
    log = owner-IsWellFormed;
    subs = owner-IsBounded;
    dedup = record {
      positive = omega arith;
      bounded = omega arith;
      tracked = λ k h. absurd (cc);
      sorted = tt;
    };
  };
  handled = record { positive = omega arith; bounded = omega arith; tracked = λ k h. absurd (cc) };
}

abbrev frames : List (Frame × ℕ)
frames =
    (
      record {
        topic = ingest_topic (codes "t");
        reply_token = some 3;
        payload_hex = codes "body";
        from = codes "p";
      },
      100,
    )
    ∷ []

serve-IsSound_example :
    let n' = (serve plain_iam plain_wire world words node frames).0 in
    IsSoundNode n' × (reach n'.owner.log ≤ reach owner.log + length frames)
serve-IsSound_example =
    serve-IsSound plain_iam plain_wire world words node frames world-StepsLog world-StepsSubs
      (omega arith) node-IsSound

abbrev pub new_logs : Opened
new_logs = record { writer = ok empty_log; registry = ok (record { subs = [] }); stream = ok tt }

abbrev created : Node
created = record {
  owner = record {
    node_id = codes "n";
    topic = codes "t";
    log = empty_log;
    subs = record { subs = [] };
    live = [];
    dead_letters = [];
    accepted_roots = [];
    require_cap = false;
    dedup = new_cache dedup_capacity dedup_ttl_secs;
  };
  handled = new_tokens dedup_capacity dedup_ttl_secs;
}

new_logs-OpensSound : OpensSound new_logs
new_logs-OpensSound = record {
  logs = λ log e. subst IsWellFormed (ok-eq e) (record { numbered = tt; fits = omega arith });
  registries =
      λ subs e. subst Registry.IsBounded (ok-eq e) (record { sorted = tt; bounded = omega arith });
}

handle_ingest-Untouched_example :
    let gated = record owner { require_cap = true } in
    Untouched gated
      (handle_ingest plain_iam plain_wire world gated 1 (codes "body") (codes "p") 100).0
      Refusal.no_capability
unfolding handle_ingest ce_pubsub.Protocol.decode_ingest_hex ce_pubsub.Protocol.decode_ingest
    ce_pubsub.Dedup.get lookup ce_pubsub.Owner.reply_of ce_pubsub.Owner.apply_ingest
    ce_pubsub.Owner.admit_publisher
handle_ingest-Untouched_example =
    handle_ingest-Untouched plain_iam plain_wire world (record owner { require_cap = true }) 1
      (codes "body") (codes "p") 100 Refusal.no_capability refl
