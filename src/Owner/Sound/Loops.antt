-- ===== src/Owner/Sound/Loops.antt =====
-- The invariant of an owner through its two loops, from the creation of the topic on.
use ce_pubsub.Prelude.{
  ℕ, ◌+◌, ◌≤◌, ◌<◌, ◌≡◌, subst, inl, inr, List, [], ◌∷◌, arith, length, Bool-cases, Option-cases,
}
use ce_pubsub.Prelude.Words.{u64_mod}
use ce_pubsub.Prelude.Order.{Text, same, text_order}
use ce_pubsub.Prelude.Result.{Result, ok, err, >>=-eq-ok, ok-eq}
use ce_pubsub.Message.{ingest_topic, control_topic, validate_topic}
use ce_pubsub.Log.{TopicLog}
use ce_pubsub.Log.Invariant.{IsWellFormed}
use ce_pubsub.Dedup.{seen}
use ce_pubsub.Dedup.Bounds.{
  IsBoundedSet, seen-IsBoundedSet, new_cache-IsBounded, new_tokens-IsBoundedSet,
}
use ce_pubsub.Subscription.{SubRegistry}
use ce_pubsub.Subscription.Registry
use ce_pubsub.Caps.{Iam, map_err}
use ce_pubsub.Protocol.{Wire}
use ce_pubsub.Owner.{Owner, World, dedup_capacity, dedup_ttl_secs}
use ce_pubsub.Owner.Control.Gate.{StepsSubs}
use ce_pubsub.Owner.Serve.{
  Frame, Words, Node, serve_ingest_frame, serve_control_frame, serve_frame, serve,
}
use ce_pubsub.Owner.Topic.{CreateError, Opened, create_topic}
use ce_pubsub.Owner.Sound.{reach, StepsLog, IsSound, handle_ingest-IsSound, handle_control-IsSound}

pub record IsSoundNode (n : Node) : Type 0 where
  pub owner : IsSound n.owner
  pub handled : IsBoundedSet n.handled

module _ (iam : Iam) (wire : Wire) (w : World) (words : Words) where
  serve_ingest_frame-IsSound :
      (o : Owner) (frame : Frame) (now : ℕ)
      → StepsLog w
      → reach o.log + 1 < u64_mod
      → IsSound o
      → let o' = (serve_ingest_frame iam wire w words o frame now).0 in
        IsSound o' × (reach o'.log ≤ reach o.log + 1)
  unfolding serve_ingest_frame
  serve_ingest_frame-IsSound o frame now steps room v =
      elim (Bool-cases (same frame.topic (ingest_topic o.topic))) [
        | inr other ↦ rw (other, serve_ingest_frame) (v, omega arith)
        | inl mine ↦ elim (Option-cases frame.reply_token) [
          | inl silent ↦ rw (mine, silent, serve_ingest_frame) (v, omega arith)
          | inr (token, asked) ↦
              rw (mine, asked, serve_ingest_frame)
                (handle_ingest-IsSound iam wire w o token frame.payload_hex frame.from now steps
                  room v)
        ]
      ]

  serve_control_frame-IsSound :
      (n : Node) (frame : Frame) (now : ℕ)
      → StepsSubs w
      → IsSoundNode n
      → let n' = (serve_control_frame iam wire w words n frame now).0 in
        IsSoundNode n' × (reach n'.owner.log ≤ reach n.owner.log)
  unfolding serve_control_frame
  serve_control_frame-IsSound n frame now steps v =
      elim (Bool-cases (same frame.topic (control_topic n.owner.topic))) [
        | inr other ↦ rw (other, serve_control_frame) (v, omega arith)
        | inl mine ↦ elim (Option-cases frame.reply_token) [
          | inl silent ↦ rw (mine, silent, serve_control_frame) (v, omega arith)
          | inr (token, asked) ↦
              let tokens = seen-IsBoundedSet n.handled token now v.handled in
              elim (Bool-cases (seen n.handled token now).1) [
                | inl old ↦
                    rw (mine, asked, old, serve_control_frame)
                      (record { owner = v.owner; handled = tokens }, omega arith)
                | inr new ↦
                    let (sound, shorter) =
                      handle_control-IsSound iam wire w n.owner frame.payload_hex frame.from now
                        steps v.owner in
                    rw (mine, asked, new, serve_control_frame)
                      (record { owner = sound; handled = tokens }, shorter)
              ]
        ]
      ]

  serve_frame-IsSound :
      (n : Node) (frame : Frame) (now : ℕ)
      → StepsLog w
      → StepsSubs w
      → reach n.owner.log + 1 < u64_mod
      → IsSoundNode n
      → let n' = (serve_frame iam wire w words n frame now).0 in
        IsSoundNode n' × (reach n'.owner.log ≤ reach n.owner.log + 1)
  unfolding serve_frame
  serve_frame-IsSound n frame now steps steps' room v =
      let o = (serve_ingest_frame iam wire w words n.owner frame now).0 in
      let (sound, longer) = serve_ingest_frame-IsSound n.owner frame now steps room v.owner in
      let (sound', shorter) =
        serve_control_frame-IsSound (record n { owner = o }) frame now steps'
          (record { owner = sound; handled = v.handled }) in
      (sound', omega (arith, longer, shorter))

  -- Whatever frames arrive, in whatever order and with whatever content, if each proposal on the
  -- log and on the registry applies its operation or changes nothing and there are as many
  -- cursors left as frames, the owner's loops keep its log numbered without gaps, its registry
  -- sorted and within the limit on subscriptions, its cache and its set of tokens within their
  -- capacities, and the log grows by one message per frame at most.
  pub serve-IsSound :
      (n : Node) (frames : List (Frame × ℕ))
      → StepsLog w
      → StepsSubs w
      → reach n.owner.log + length frames < u64_mod
      → IsSoundNode n
      → let n' = (serve iam wire w words n frames).0 in
        IsSoundNode n' × (reach n'.owner.log ≤ reach n.owner.log + length frames)
  unfolding serve
  serve-IsSound n [] steps steps' room v = (v, omega arith)
  serve-IsSound n ((frame, now) ∷ frames) steps steps' room v =
      let n1 = (serve_frame iam wire w words n frame now).0 in
      let (v1, longer) = serve_frame-IsSound n frame now steps steps' (omega (arith, room)) v in
      let (v2, rest) = serve-IsSound n1 frames steps steps' (omega (arith, room, longer)) v1 in
      (v2, omega (arith, longer, rest))

-- The logs that are opened are those that an owner left behind, or new ones.
pub record OpensSound (opened : Opened) : Type 0 where
  pub logs : (log : TopicLog) → opened.writer ≡ ok log → IsWellFormed log
  pub registries : (subs : SubRegistry) → opened.registry ≡ ok subs → Registry.IsBounded subs

map_err-eq-ok :
    {A E F : Type 0} (f : E → F) (r : Result E A) (x : A)
    → ◌≡◌ {A = Result F A} (map_err f r) (ok x)
    → r ≡ ok x
map_err-eq-ok f (ok y) x h = cc
map_err-eq-ok f (err why) x h = absurd (cc)

-- If the logs that are opened are well formed, a topic that is created has a valid name, and the
-- owner, its cache and its set of tokens are sound.
pub create_topic-IsSound :
    (node_id topic : Text) (opened : Opened) (n : Node)
    → OpensSound opened
    → create_topic node_id opened topic ≡ ok n
    → (validate_topic topic ≡ ok tt) × IsSoundNode n
unfolding create_topic
create_topic-IsSound node_id topic opened n sound h =
    let (u, named, h1) = >>=-eq-ok (map_err CreateError.invalid_topic (validate_topic topic)) _ h in
    let (log, written, h2) = >>=-eq-ok (map_err CreateError.no_log opened.writer) _ h1 in
    let (subs, registered, h3) = >>=-eq-ok (map_err CreateError.no_registry opened.registry) _ h2 in
    let (s, live, h4) = >>=-eq-ok (map_err CreateError.no_stream opened.stream) _ h3 in
    (
      map_err-eq-ok _ _ u named,
      subst IsSoundNode (ok-eq h4) (record {
        owner = record {
          log = sound.logs log (map_err-eq-ok _ _ log written);
          subs = sound.registries subs (map_err-eq-ok _ _ subs registered);
          dedup = new_cache-IsBounded dedup_capacity dedup_ttl_secs;
        };
        handled = new_tokens-IsBoundedSet dedup_capacity dedup_ttl_secs;
      }),
    )
