-- ===== src/Owner/Sound.antt =====
-- What holds of a whole owner, whatever its peers send: the handlers of src/lib.rs.
pub mod Loops
use ce_pubsub.Prelude.{
  ℕ, ◌+◌, ◌≤◌, ◌<◌, ◌≡◌, ◌∙◌, ◌⊎◌, inl, inr, [], ◌∷◌, ◌++◌, arith, length, length-append,
  if◌then◌else◌, Option-cases,
}
use ce_pubsub.Prelude.Words.{u64_mod}
use ce_pubsub.Prelude.Order.{Text, text_order}
use ce_pubsub.Prelude.Result.{◌>>=◌, Result-cases}
use ce_pubsub.Message.{Message}
use ce_pubsub.Log
use ce_pubsub.Log.{TopicLog, LogOp}
use ce_pubsub.Log.Invariant.{IsWellFormed, apply-IsWellFormed}
use ce_pubsub.Dedup
use ce_pubsub.Dedup.{seen}
use ce_pubsub.Dedup.Bounds
use ce_pubsub.Dedup.Bounds.{get-IsBounded, record_seen-IsBounded}
use ce_pubsub.Subscription.Registry
use ce_pubsub.Subscription
use ce_pubsub.Caps.{Iam}
use ce_pubsub.Protocol
use ce_pubsub.Protocol.{Wire, IngestRequest, decode_ingest_hex}
use ce_pubsub.Owner.{
  Owner, World, admit_publisher, message_of, append_and_fanout, apply_ingest, ingest, handle_ingest,
  dedup_key, seen_of,
}
use ce_pubsub.Owner
use ce_pubsub.Owner.Control
use ce_pubsub.Owner.Control.{handle_control}
use ce_pubsub.Owner.Control.Keeps.{handle_control-keeps}
use ce_pubsub.Owner.Control.Gate.{StepsSubs, handle_control-IsBounded}

-- How far the cursors reach.
abbrev pub reach : TopicLog → ℕ
reach l = l.floor + length l.messages

-- A proposal on the log applies its operation or changes nothing.
pub record StepsLog (w : World) : Type 0 where
  pub steps :
      (l : TopicLog) (op : LogOp)
      → ((w.propose_log l op).0 ≡ Log.apply l op) ⊎ ((w.propose_log l op).0 ≡ l)

-- The log is numbered without gaps, the registry is sorted and within its limit, and the cache is
-- within its capacity.
pub record IsSound (o : Owner) : Type 0 where
  pub log : IsWellFormed o.log
  pub subs : Registry.IsBounded o.subs
  pub dedup : Bounds.IsBounded o.dedup

module _ (iam : Iam) (wire : Wire) (w : World) where
  -- What a proposal makes of the log.
  proposed-log :
      (l : TopicLog) (op : LogOp)
      → StepsLog w
      → reach l + 1 < u64_mod
      → IsWellFormed l
      → IsWellFormed (w.propose_log l op).0
  proposed-log l op steps room v = elim (steps.steps l op) [
    | inl did ↦ rw did (apply-IsWellFormed op v room)
    | inr kept ↦ rw kept v
  ]

  proposed-reach :
      (l : TopicLog) (m : Message)
      → StepsLog w
      → reach (w.propose_log l (Log.append m)).0 ≤ reach l + 1
  unfolding Log.apply
  proposed-reach l m steps = elim (steps.steps l (Log.append m)) [
    | inl did ↦
        let longer = length-append l.messages (record m { cursor = Log.next_cursor l } ∷ []) in
        rw did (omega (arith, longer))
    | inr kept ↦ rw kept (omega arith)
  ]

  append_and_fanout-parts :
      (o : Owner) (m : Message)
      → let o' = (append_and_fanout iam wire w o m).0 in
        (o'.log
          ≡ (w.propose_log o.log (Log.append (record m { cursor = Log.next_cursor o.log }))).0)
        × (o'.subs ≡ o.subs)
        × (o'.dedup ≡ o.dedup)
  unfolding append_and_fanout
  append_and_fanout-parts o m = ground arith

  append_and_fanout-IsSound :
      (o : Owner) (m : Message)
      → StepsLog w
      → reach o.log + 1 < u64_mod
      → IsSound o
      → let o' = (append_and_fanout iam wire w o m).0 in
        IsSound o' × (reach o'.log ≤ reach o.log + 1)
  append_and_fanout-IsSound o m steps room v =
      let (log, subs, dedup) = append_and_fanout-parts o m in
      let stamped = record m { cursor = Log.next_cursor o.log } in
      (
        record {
          log = rw log (proposed-log o.log (Log.append stamped) steps room v.log);
          subs = rw subs v.subs;
          dedup = rw dedup v.dedup;
        },
        rw log (proposed-reach o.log stamped steps),
      )

  pub handle_control-IsSound :
      (o : Owner) (body requester : Text) (now : ℕ)
      → StepsSubs w
      → IsSound o
      → let o' = (handle_control iam wire w o body requester now).0 in
        IsSound o' × (reach o'.log ≤ reach o.log)
  handle_control-IsSound o body requester now steps v =
      let (log, dedup) = handle_control-keeps iam wire w o body requester now in
      (
        record {
          log = rw log v.log;
          subs = handle_control-IsBounded iam wire w o body requester now steps v.subs;
          dedup = rw dedup v.dedup;
        },
        rw log (omega arith),
      )

  apply_ingest-IsSound :
      (o : Owner) (req : IngestRequest) (publisher : Text) (now : ℕ)
      → StepsLog w
      → reach o.log + 1 < u64_mod
      → IsSound o
      → let o' = (apply_ingest iam wire w o req publisher now).0 in
        IsSound o' × (reach o'.log ≤ reach o.log + 1)
  unfolding apply_ingest
  apply_ingest-IsSound o req publisher now steps room v =
      elim (Result-cases (
        admit_publisher iam wire w o req publisher now
        >>= message_of iam wire w req publisher now)) [
          | inl (why, e) ↦ rw (e, apply_ingest) (v, omega arith)
          | inr (m, e) ↦ rw (e, apply_ingest) (append_and_fanout-IsSound o m steps room v)
        ]

  ingest-IsSound :
      (o : Owner) (req : IngestRequest) (token : ℕ) (publisher : Text) (now : ℕ)
      → StepsLog w
      → reach o.log + 1 < u64_mod
      → IsSound o
      → let o' = (ingest iam wire w o req token publisher now).0 in
        IsSound o' × (reach o'.log ≤ reach o.log + 1)
  unfolding ingest
  ingest-IsSound o req token publisher now steps room v =
      let key = dedup_key iam wire w req token in
      let cache = (Dedup.get o.dedup key now).0 in
      let o1 = record o { dedup = cache } in
      let v1 : IsSound o1 = record {
        log = v.log;
        subs = v.subs;
        dedup = get-IsBounded o.dedup key now v.dedup;
      } in
      elim (Option-cases (Dedup.get o.dedup key now).1) [
        | inr (seen, hit) ↦ rw (hit, ingest) (v1, omega arith)
        | inl new ↦
            let o2 = (apply_ingest iam wire w o1 req publisher now).0 in
            let outcome = (apply_ingest iam wire w o1 req publisher now).1 in
            let (v2, longer) = apply_ingest-IsSound o1 req publisher now steps room v1 in
            rw (new, ingest)
              (
                record {
                  log = v2.log;
                  subs = v2.subs;
                  dedup =
                      record_seen-IsBounded o2.dedup key (seen_of iam wire w outcome) now v2.dedup;
                },
                longer,
              )
      ]

  pub handle_ingest-IsSound :
      (o : Owner) (token : ℕ) (body publisher : Text) (now : ℕ)
      → StepsLog w
      → reach o.log + 1 < u64_mod
      → IsSound o
      → let o' = (handle_ingest iam wire w o token body publisher now).0 in
        IsSound o' × (reach o'.log ≤ reach o.log + 1)
  unfolding handle_ingest
  handle_ingest-IsSound o token body publisher now steps room v =
      elim (Result-cases (decode_ingest_hex wire body)) [
        | inl (why, bad) ↦ rw (bad, handle_ingest) (v, omega arith)
        | inr (req, good) ↦
            rw (good, handle_ingest) (ingest-IsSound o req token publisher now steps room v)
      ]
