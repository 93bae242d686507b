-- ===== src/Network.antt =====
-- An owner and a client on one mesh: `CeClient::request` of src/lib.rs's calls, answered by the
-- owner's loops. Each request becomes one frame with a token of its own, its body in hex, that the
-- loops take up once.
pub mod Frames
pub mod Publish
pub mod Retry
pub mod Consume
pub mod Lease
pub mod Limits
pub mod Again
use ce_pubsub.Prelude.{ℕ, suc, ◌≡◌, Option, some, List, [], ◌∷◌}
use ce_pubsub.Prelude.Order.{Text, codes}
use ce_pubsub.Prelude.Result.{Result, ok, err}
use ce_pubsub.Caps.{Iam}
use ce_pubsub.Protocol.{Wire, IngestReply, ControlReply, ControlRequest}
use ce_pubsub.Protocol.Decode
use ce_pubsub.Owner.{World}
use ce_pubsub.Owner.Serve.{Frame, Words, Node, serve_frame}
use ce_pubsub.Client.Remote.{Mesh}

-- The owner's node and the next token.
abbrev pub Net : Type 0
Net = Node × ℕ

abbrev pub answer : List (ℕ × Text) → Result Text Text
answer [] = err (codes "timeout")
answer ((token, bytes) ∷ replies) = ok bytes

-- What the encodings of both sides promise.
pub record Faithful (wire : Wire) : Type 0 where
  pub requests : Decode.ReadsBack wire
  pub replies :
      (r : IngestReply Text) → wire.ingest_reply_from_json (wire.ingest_reply_to_json r) ≡ ok r
  pub control_bytes : (req : ControlRequest) → Decode.IsBytes (wire.control_to_json req)
  pub controls : (req : ControlRequest) → wire.control_from_json (wire.control_to_json req) ≡ ok req
  pub control_replies :
      (r : ControlReply Text) → wire.control_reply_from_json (wire.control_reply_to_json r) ≡ ok r

module _ (iam : Iam) (wire : Wire) (w : World) (words : Words) (me : Text) (now : ℕ) where
  abbrev pub frame_of : Text → Text → ℕ → Frame
  frame_of topic body token = record {
    topic = topic;
    reply_token = some token;
    payload_hex = wire.hex_encode body;
    from = me;
  }

  abbrev pub direct : Mesh Net
  direct = record {
    request = λ (n : Net) owner topic body timeout_ms.
        let (n', replies) = serve_frame iam wire w words n.0 (frame_of topic body n.1) now in
        ((n', suc n.1), answer replies);
  }

  -- The same mesh when the reply is lost on its way back.
  abbrev pub unheard : Mesh Net
  unheard = record {
    request = λ (n : Net) owner topic body timeout_ms.
        ((direct.request n owner topic body timeout_ms).0, err (codes "timeout"));
  }
