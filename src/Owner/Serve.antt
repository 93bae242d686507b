-- ===== src/Owner/Serve.antt =====
-- src/lib.rs: the two loops in which an owner polls the node's inbox, `serve_ingest` and
-- `serve_control`, one frame of a poll at a time.
use ce_pubsub.Prelude.{ℕ, Bool, Option, none, some, List, [], ◌∷◌, ◌++◌, ◌==◌, ◌||◌, if◌then◌else◌}
use ce_pubsub.Prelude.Order.{Text, same, text_order}
use ce_pubsub.Message.{ingest_topic, control_topic}
use ce_pubsub.Dedup.{TokenSet, seen}
use ce_pubsub.Caps.{Iam}
use ce_pubsub.Protocol.{Wire, IngestReply, ControlReply}
use ce_pubsub.Owner.{Owner, World, Refusal, handle_ingest}
use ce_pubsub.Owner.Control.{ControlRefusal, handle_control}

-- A message in the node's inbox, as far as the loops read it.
pub record Frame : Type 0 where
  pub topic : Text
  pub reply_token : Option ℕ
  pub payload_hex : Text
  pub from : Text

-- How refusals are put into words.
pub record Words : Type 0 where
  pub refusal : Refusal → Text
  pub control_refusal : ControlRefusal → Text

unfoldable pub worded : {E : Type 0} → (E → Text) → IngestReply E → IngestReply Text
worded f (IngestReply.accepted c) = IngestReply.accepted c
worded f (IngestReply.rejected why) = IngestReply.rejected (f why)

unfoldable pub worded_control : {E : Type 0} → (E → Text) → ControlReply E → ControlReply Text
worded_control f ControlReply.done = ControlReply.done
worded_control f (ControlReply.high c) = ControlReply.high c
worded_control f (ControlReply.subscriptions names) = ControlReply.subscriptions names
worded_control f (ControlReply.pulled msgs) = ControlReply.pulled msgs
worded_control f (ControlReply.rejected why) = ControlReply.rejected (f why)

-- An owner with the state of its control loop, the tokens it has answered.
pub record Node : Type 0 where
  pub owner : Owner
  pub handled : TokenSet

-- A reply that is sent: its token and its bytes.
abbrev pub Sent : Type 0
Sent = Option (ℕ × Text)

abbrev pub sent : Sent → List (ℕ × Text)
sent none = []
sent (some reply) = reply ∷ []

-- `Drop` of a `Topic` handle: the flag that stops the loops, after one of `strong_count` handles.
unfoldable pub drop_handle : ℕ → Bool → Bool
drop_handle strong_count shutdown = strong_count == 1 || shutdown

module _ (iam : Iam) (wire : Wire) (w : World) (words : Words) where
  -- The body of the loop in `serve_ingest`.
  unfoldable pub serve_ingest_frame : Owner → Frame → ℕ → Owner × Sent
  serve_ingest_frame o frame now =
      if same frame.topic (ingest_topic o.topic)
      then elim frame.reply_token [
        | none ↦ (o, none)
        | some token ↦
            let (o', reply) = handle_ingest iam wire w o token frame.payload_hex frame.from now in
            (
              o',
              elim reply [
                | none ↦ none
                | some r ↦ some (token, wire.ingest_reply_to_json (worded words.refusal r))
              ],
            )
      ]
      else (o, none)

  -- The body of the loop in `serve_control`.
  unfoldable pub serve_control_frame : Node → Frame → ℕ → Node × Sent
  serve_control_frame n frame now =
      if same frame.topic (control_topic n.owner.topic)
      then elim frame.reply_token [
        | none ↦ (n, none)
        | some token ↦
            let (handled, old) = seen n.handled token now in
            let (o', reply) = handle_control iam wire w n.owner frame.payload_hex frame.from now in
            if old then (record n { handled = handled }, none) else (
              record { owner = o'; handled = handled },
              some (token, wire.control_reply_to_json (worded_control words.control_refusal reply)),
            )
      ]
      else (n, none)

  -- A frame lies in the inbox for both loops; each passes by what is not on its topic.
  unfoldable pub serve_frame : Node → Frame → ℕ → Node × List (ℕ × Text)
  serve_frame n frame now =
      let (o, first) = serve_ingest_frame n.owner frame now in
      let (n', second) = serve_control_frame (record n { owner = o }) frame now in
      (n', sent first ++ sent second)

  -- The frames of successive polls, with the times at which they are taken up.
  unfoldable pub serve : Node → List (Frame × ℕ) → Node × List (ℕ × Text)
  serve n [] = (n, [])
  serve n ((frame, now) ∷ frames) =
      let (n', replies) = serve_frame n frame now in
      let (n'', later) = serve n' frames in (n'', replies ++ later)

  -- One poll of both loops.
  unfoldable pub poll : Bool → Node → List (Frame × ℕ) → Node × List (ℕ × Text)
  poll shutdown n frames = if shutdown then (n, []) else serve n frames
