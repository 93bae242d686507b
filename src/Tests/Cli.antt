-- ===== src/Tests/Cli.antt =====
-- The command line, on a system with one identity and a topic owner next door.
use ce_pubsub.Prelude.{
  ℕ, ◌+◌, ◌<◌, ◌≡◌, ◌↔◌, ◌⊎◌, refl, true, false, none, some, List, [], ◌∷◌, ◌++◌, arith, length,
  map,
}
use ce_pubsub.Prelude.Words.{u64_mod}
use ce_pubsub.Prelude.Order.{Text, codes, text_order}
use ce_pubsub.Prelude.Map.{lookup}
use ce_pubsub.Prelude.Result.{ok, err}
use ce_pubsub.Message.{Message}
use ce_pubsub.Log.{empty_log}
use ce_pubsub.Protocol.{LeasedMessage, ControlReply}
use ce_pubsub.Client.Live.{Subscription, tail, let_through, limited, tail_lem}
use ce_pubsub.Cli.{SubscriptionArgs, GrantArgs, Line, parse_attr, options_of, not_after}
use ce_pubsub.Cli.Run.{System, show_leased, run_grant, run_inspect, ability_of}
use ce_pubsub.Cli.Grants.{not_after_iff}
use ce_pubsub.Cli.AutoAck.{Acknowledged, line_of, show_leased_lem}
use ce_pubsub.Network.{Net, direct}
use ce_pubsub.Tests.Wire.{plain_iam}
use ce_pubsub.Tests.Owner.{world}
use ce_pubsub.Tests.Log.{note}
use ce_pubsub.Tests.Faithful.{true_wire}
use ce_pubsub.Tests.Network.{words, node}
use ce_pubsub.Tests.Sound.{new_logs}
use ce_pubsub.Tests.Links.{true_iam}

abbrev attr : List (Text × Text)
attr = (codes "k", codes "1") ∷ (codes "k", codes "2") ∷ []

abbrev forever : ℕ
forever = 18_446_744_072_009_551_616

not_after_iff_example :
    (not_after 1_700_000_000 forever ≡ 0) ↔ ((forever ≡ 0) ⊎ (1_700_000_000 + forever ≡ u64_mod))
not_after_iff_example =
    not_after_iff 1_700_000_000 forever (omega arith) (omega arith) (omega arith)

tail_lem_example :
    let sub : Subscription = record {
      stream = note 1 ∷ note 2 ∷ [];
      filter = record { clauses = [] };
    } in
    tail 2 (some 0) 0 sub ≡ limited (some 0) (let_through sub.filter sub.stream)
tail_lem_example =
    tail_lem 2 (some 0) (record { stream = note 1 ∷ note 2 ∷ []; filter = record { clauses = [] } })
      (omega arith)

abbrev system : System true_iam Net
system = record {
  connect = λ s. (s, ok tt);
  node_id = codes "n";
  mesh = direct plain_iam true_wire world words (codes "p") 100;
  opened = λ topic. new_logs;
  open_stream = λ name. ok [];
  reader = λ topic owner. record { log = λ i. empty_log; version = λ i. 0; late = λ i. true };
  fuel = 9;
  local = λ topic. ok empty_log;
  read_file = λ path. err (codes "no file");
  identity = λ dir. ok (codes "o");
  now = 100;
  lossy = λ bytes. bytes;
}

abbrev grant_args : GrantArgs
grant_args = record {
  topic = codes "acme/";
  subscribe = true;
  expires_in = 60;
  audience = none;
  data_dir = none;
}

abbrev args : SubscriptionArgs
args = record {
  topic = codes "t";
  name = codes "s";
  owner = codes "n";
  grant = none;
  timeout_ms = 1000;
}

abbrev leased : List LeasedMessage
leased = record { message = record (note 10) { cursor = 1 }; delivery_attempt = 1 } ∷ []

show_leased_lem_example :
    let out = show_leased true_iam true_wire world system args true leased (node, 7) in
    (out.lines ≡ map (line_of true_iam true_wire world system args) leased)
    × Acknowledged true_iam true_wire world system args
        (map (λ lm. lm.message.cursor) leased)
        (node, 7)
        out.state
unfolding show_leased ce_pubsub.Cli.short ce_pubsub.Cli.Run.send_ack ce_pubsub.Client.Remote.ack
    ce_pubsub.Client.Remote.after_checks ce_pubsub.Message.validate_topic
    ce_pubsub.Message.topic_char ce_pubsub.Client.Remote.control_ok
    ce_pubsub.Client.Remote.control_for ce_pubsub.Client.Remote.control
    ce_pubsub.Owner.Serve.serve_frame ce_pubsub.Owner.Serve.serve_ingest_frame
    ce_pubsub.Prelude.Order.text_cmp ce_pubsub.Message.control_topic ce_pubsub.Message.ingest_topic
    ce_pubsub.Owner.Serve.serve_control_frame ce_pubsub.Dedup.seen lookup
    ce_pubsub.Owner.Serve.worded_control ce_pubsub.Owner.Control.handle_control
    ce_pubsub.Protocol.decode_control ce_pubsub.Owner.Control.admitted
    ce_pubsub.Owner.Control.is_high_cursor ce_pubsub.Owner.Control.admit_subscriber
    ce_pubsub.Owner.Control.control ce_pubsub.Owner.Control.propose
    ce_pubsub.Client.Remote.expect_ok
show_leased_lem_example = show_leased_lem true_iam true_wire world system args leased (node, 7) refl
