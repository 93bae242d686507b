-- ===== src/Tests/Owner.antt =====
-- The handlers of an owner on a node that always succeeds.
use ce_pubsub.Prelude.{
  suc, ◌+◌, ◌≡◌, inl, refl, true, false, none, some, List, [], ◌∷◌, ◌++◌, arith, length, map,
}
use ce_pubsub.Prelude.Words.{add_u64, add_u32, saturating_add}
use ce_pubsub.Prelude.Order.{Text, codes, text_order, text_cmp}
use ce_pubsub.Prelude.Map.{lookup}
use ce_pubsub.Prelude.Result.{ok}
use ce_pubsub.Log
use ce_pubsub.Log.Invariant.{IsWellFormed}
use ce_pubsub.Subscription
use ce_pubsub.Subscription.{SubscriptionState, default_state, next_attempt}
use ce_pubsub.Subscription.Plan.{
  scanned, scan, start, visit, skipped, exhausted, expiry, plan_lease, new_floor, handled_after,
  bridge,
}
use ce_pubsub.Subscription.Commit.{lease_once}
use ce_pubsub.Subscription.Registry.{IsBounded}
use ce_pubsub.Protocol.ControlReply.{pulled}
use ce_pubsub.Protocol.{LeasedMessage}
use ce_pubsub.Owner.{
  Owner, World, Applies, apply_ingest, admit_publisher, message_of, append_and_fanout,
}
use ce_pubsub.Owner.Accept.{sent, apply_ingest-eq-ok}
use ce_pubsub.Owner.Control.{handle_lease}
use ce_pubsub.Owner.Control.Pull.{AppliesSubs, stamp_of, carried, asked, handle_lease_lem}
use ce_pubsub.Owner.Control.Gate.{StepsSubs}
use ce_pubsub.Message.{validate_attributes, validate_payload}
use ce_pubsub.Tests.Log.{note}
use ce_pubsub.Tests.Wire.{plain_wire, plain_iam, request}

abbrev pub world : World
world = record {
  propose_log = λ l op. (Log.apply l op, none);
  propose_subs = λ r op. (Subscription.apply r op, none);
  live_publish = λ m. true;
  dead_letter_stream = true;
  dead_letter_publish = λ m. true;
  revoked = ok [];
}

pub world-Applies : Applies world
world-Applies = record { log_applied = λ l op fine. refl }

pub world-AppliesSubs : AppliesSubs world
world-AppliesSubs = record { subs_applied = λ r op fine. refl }

pub world-StepsSubs : StepsSubs world
world-StepsSubs = record { steps = λ r op. inl refl }

-- One message is published, one subscription exists.
abbrev pub owner : Owner
owner = record {
  node_id = codes "n";
  topic = codes "t";
  log = record { messages = record (note 10) { cursor = 1 } ∷ []; floor = 0 };
  subs = record { subs = (codes "s", default_state) ∷ [] };
  live = [];
  dead_letters = [];
  accepted_roots = [];
  require_cap = false;
  dedup = record { map = []; order = []; capacity = 4; ttl_secs = 60 };
}

pub owner-IsWellFormed : IsWellFormed owner.log
owner-IsWellFormed = record { numbered = (refl, tt); fits = omega arith }

pub owner-IsBounded : IsBounded owner.subs
owner-IsBounded = record { sorted = (tt, tt); bounded = omega arith }

apply_ingest-eq-ok_example :
    let o' = (apply_ingest plain_iam plain_wire world owner request (codes "p") 100).0 in
    (payload : Text) × (plain_wire.hex_decode request.payload_hex ≡ ok payload)
    × (2 ≡ suc (0 + length owner.log.messages))
    × (Log.get o'.log 2
        ≡ some (sent plain_iam plain_wire world owner request (codes "p") 100 payload 2))
    × (o'.log.messages
        ≡ owner.log.messages
          ++ sent plain_iam plain_wire world owner request (codes "p") 100 payload 2 ∷ [])
unfolding apply_ingest admit_publisher message_of validate_attributes validate_payload
    append_and_fanout Log.next_cursor add_u64 Log.high_cursor
apply_ingest-eq-ok_example =
    apply_ingest-eq-ok plain_iam plain_wire world owner request (codes "p") 100 2 world-Applies
      owner-IsWellFormed (omega arith) refl

handle_lease_lem_example :
    let (o', reply) = handle_lease plain_iam plain_wire world owner (codes "s") 5 100 in
    let high = Log.high_cursor owner.log in
    (msgs : List LeasedMessage) × (reply ≡ pulled msgs)
    × (map stamp_of msgs ≡ (scanned default_state high 0 100 5).leased_out)
    × (map carried msgs ≡ map (asked owner.log) (scanned default_state high 0 100 5).leased_out)
    × (lookup (codes "s") o'.subs.subs ≡ some (lease_once default_state high 0 100 5))
    × (o'.log ≡ owner.log)
unfolding Log.high_cursor add_u64 lookup text_cmp plan_lease scanned scan start visit skipped
    exhausted next_attempt add_u32 expiry new_floor saturating_add bridge handled_after
    ce_pubsub.Subscription.Plan.idle
handle_lease_lem_example =
    handle_lease_lem plain_iam plain_wire world owner (codes "s") 5 100 default_state
      (Subscription.apply_lease (codes "s") ((1, 130) ∷ []) [] 0)
      (record { leased = (1, 1) ∷ []; dead_lettered = [] }) world-AppliesSubs owner-IsWellFormed
      (omega arith, omega arith) refl refl refl
