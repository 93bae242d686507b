-- ===== src/Tests/Faithful.antt =====
-- Encodings of every request and reply that can be read back, and the calls over the mesh on them.
use ce_pubsub.Prelude.{
  ℕ, ◌+◌, ◌-◌, ◌≤◌, ltb, length, arith, Bool-cases, Bool, true, false, ◌≡◌, refl, ◌⊎◌, inl, inr,
  Option, List, [], ◌∷◌,
}
use ce_pubsub.Prelude.Order.{Text}
use ce_pubsub.Prelude.Map.{Map}
use ce_pubsub.Prelude.Result.{Result, ok, ◌>>=◌}
use ce_pubsub.Message.{Cursor, Message}
use ce_pubsub.Subscription.{SubscriptionPolicy}
use ce_pubsub.Protocol
use ce_pubsub.Protocol.{
  Wire, IngestRequest, ControlRequest, LeasedMessage, IngestReply, ControlReply,
}
use ce_pubsub.Protocol.Decode.{ReadsBack}
use ce_pubsub.Network.{Faithful}
use ce_pubsub.Tests.Hex.{hex_encode, hex_decode, hex_decode-hex_encode, length-hex_encode}
use ce_pubsub.Network.Limits.{Widens}
use ce_pubsub.Tests.Codec.{
  Codec, enc_all, enc_unary-length, nat, unit, pair, sum, list, via, option, text,
}

abbrev attributes : Codec (Map Text Text)
attributes = list (pair text text)

abbrev IngestFields : Type 0
IngestFields = Text × (Option Text × (Option Text × (Option Text × Map Text Text)))

abbrev ingest_fields : IngestRequest → IngestFields
ingest_fields r = (r.payload_hex, (r.grant, (r.idempotency_key, (r.ordering_key, r.attributes))))

abbrev of_ingest_fields : IngestFields → IngestRequest
of_ingest_fields f = record {
  payload_hex = f.0;
  grant = f.1.0;
  idempotency_key = f.1.1.0;
  ordering_key = f.1.1.1.0;
  attributes = f.1.1.1.1;
}

abbrev pub ingest_codec : Codec IngestRequest
ingest_codec =
    via (pair text (pair (option text) (pair (option text) (pair (option text) attributes))))
      ingest_fields of_ingest_fields (λ r. refl)

abbrev policy_codec : Codec SubscriptionPolicy
policy_codec =
    via (pair nat nat) (λ p. (p.ack_deadline_secs, p.max_delivery_attempts))
      (λ f. record { ack_deadline_secs = f.0; max_delivery_attempts = f.1 }) (λ p. refl)

abbrev Grant : Type 0
Grant = Option Text

abbrev ControlFields : Type 0
ControlFields =
    (Text × (SubscriptionPolicy × Grant))
    ⊎ ((Text × Grant)
        ⊎ (Grant
            ⊎ (Grant
                ⊎ ((Text × (ℕ × Grant))
                    ⊎ ((Text × (Cursor × Grant)) ⊎ (Text × (Cursor × Grant)))))))

abbrev control_fields : ControlRequest → ControlFields
control_fields (Protocol.create_subscription name policy grant) = inl (name, (policy, grant))
control_fields (Protocol.delete_subscription name grant) = inr (inl (name, grant))
control_fields (Protocol.list_subscriptions grant) = inr (inr (inl grant))
control_fields (Protocol.high_cursor grant) = inr (inr (inr (inl grant)))
control_fields (Protocol.pull name k grant) = inr (inr (inr (inr (inl (name, (k, grant))))))
control_fields (Protocol.ack name c grant) = inr (inr (inr (inr (inr (inl (name, (c, grant)))))))
control_fields (Protocol.nack name c grant) = inr (inr (inr (inr (inr (inr (name, (c, grant)))))))

abbrev of_control_fields : ControlFields → ControlRequest
of_control_fields (inl f) = Protocol.create_subscription f.0 f.1.0 f.1.1
of_control_fields (inr (inl f)) = Protocol.delete_subscription f.0 f.1
of_control_fields (inr (inr (inl grant))) = Protocol.list_subscriptions grant
of_control_fields (inr (inr (inr (inl grant)))) = Protocol.high_cursor grant
of_control_fields (inr (inr (inr (inr (inl f))))) = Protocol.pull f.0 f.1.0 f.1.1
of_control_fields (inr (inr (inr (inr (inr (inl f)))))) = Protocol.ack f.0 f.1.0 f.1.1
of_control_fields (inr (inr (inr (inr (inr (inr f)))))) = Protocol.nack f.0 f.1.0 f.1.1

pub control_fields-back : (r : ControlRequest) → of_control_fields (control_fields r) ≡ r
control_fields-back (Protocol.create_subscription name policy grant) = refl
control_fields-back (Protocol.delete_subscription name grant) = refl
control_fields-back (Protocol.list_subscriptions grant) = refl
control_fields-back (Protocol.high_cursor grant) = refl
control_fields-back (Protocol.pull name k grant) = refl
control_fields-back (Protocol.ack name c grant) = refl
control_fields-back (Protocol.nack name c grant) = refl

abbrev pub control_codec : Codec ControlRequest
control_codec =
    let marked = pair text (pair nat (option text)) in
    let rest = sum marked (sum marked marked) in
    via
      (sum (pair text (pair policy_codec (option text)))
        (sum (pair text (option text)) (sum (option text) (sum (option text) rest))))
      control_fields of_control_fields control_fields-back

abbrev bit_of_bool : Bool → Unit {0} ⊎ Unit {0}
bit_of_bool false = inl tt
bit_of_bool true = inr tt

abbrev bool_of_bit : Unit {0} ⊎ Unit {0} → Bool
bool_of_bit (inl u) = false
bool_of_bit (inr u) = true

pub bool_of_bit-bit_of_bool : (b : Bool) → bool_of_bit (bit_of_bool b) ≡ b
bool_of_bit-bit_of_bool false = refl
bool_of_bit-bit_of_bool true = refl

abbrev bool_codec : Codec Bool
bool_codec = via (sum unit unit) bit_of_bool bool_of_bit bool_of_bit-bit_of_bool

abbrev message_codec : Codec Message
message_codec =
    via
      (pair nat
        (pair text (pair text (pair nat (pair (option text) (pair attributes bool_codec))))))
      (λ m. (
        m.cursor,
        (
          m.publisher,
          (
            m.payload_hex,
            (m.published_at, (m.ordering_key, (m.attributes, m.publisher_authenticated))),
          ),
        ),
      ))
      (λ f. record {
        cursor = f.0;
        publisher = f.1.0;
        payload_hex = f.1.1.0;
        published_at = f.1.1.1.0;
        ordering_key = f.1.1.1.1.0;
        attributes = f.1.1.1.1.1.0;
        publisher_authenticated = f.1.1.1.1.1.1;
      })
      (λ m. refl)

abbrev leased_codec : Codec LeasedMessage
leased_codec =
    via (pair message_codec nat) (λ m. (m.message, m.delivery_attempt))
      (λ f. record { message = f.0; delivery_attempt = f.1 }) (λ m. refl)

abbrev reply_fields : IngestReply Text → Cursor ⊎ Text
reply_fields (IngestReply.accepted c) = inl c
reply_fields (IngestReply.rejected why) = inr why

abbrev of_reply_fields : Cursor ⊎ Text → IngestReply Text
of_reply_fields (inl c) = IngestReply.accepted c
of_reply_fields (inr why) = IngestReply.rejected why

pub reply_fields-back : (r : IngestReply Text) → of_reply_fields (reply_fields r) ≡ r
reply_fields-back (IngestReply.accepted c) = refl
reply_fields-back (IngestReply.rejected why) = refl

abbrev pub ingest_reply_codec : Codec (IngestReply Text)
ingest_reply_codec = via (sum nat text) reply_fields of_reply_fields reply_fields-back

abbrev AnswerFields : Type 0
AnswerFields = Unit {0} ⊎ (Cursor ⊎ (List Text ⊎ (List LeasedMessage ⊎ Text)))

abbrev answer_fields : ControlReply Text → AnswerFields
answer_fields ControlReply.done = inl tt
answer_fields (ControlReply.high c) = inr (inl c)
answer_fields (ControlReply.subscriptions names) = inr (inr (inl names))
answer_fields (ControlReply.pulled msgs) = inr (inr (inr (inl msgs)))
answer_fields (ControlReply.rejected why) = inr (inr (inr (inr why)))

abbrev of_answer_fields : AnswerFields → ControlReply Text
of_answer_fields (inl u) = ControlReply.done
of_answer_fields (inr (inl c)) = ControlReply.high c
of_answer_fields (inr (inr (inl names))) = ControlReply.subscriptions names
of_answer_fields (inr (inr (inr (inl msgs)))) = ControlReply.pulled msgs
of_answer_fields (inr (inr (inr (inr why)))) = ControlReply.rejected why

pub answer_fields-back : (r : ControlReply Text) → of_answer_fields (answer_fields r) ≡ r
answer_fields-back ControlReply.done = refl
answer_fields-back (ControlReply.high c) = refl
answer_fields-back (ControlReply.subscriptions names) = refl
answer_fields-back (ControlReply.pulled msgs) = refl
answer_fields-back (ControlReply.rejected why) = refl

abbrev pub control_reply_codec : Codec (ControlReply Text)
control_reply_codec =
    via (sum unit (sum nat (sum (list text) (sum (list leased_codec) text)))) answer_fields
      of_answer_fields answer_fields-back

abbrev written : {A : Type 0} → Codec A → A → Text
written c x = c.enc x []

abbrev read : {A : Type 0} → Codec A → Text → Result Text A
read c bytes = c.dec bytes >>= λ p. ok p.0

read-written :
    {A : Type 0} (c : Codec A) (x : A) → ◌≡◌ {A = Result Text A} (read c (written c x)) (ok x)
read-written c x = rw (c.back x []) refl

abbrev pub true_wire : Wire
true_wire = record {
  hex_encode = hex_encode;
  hex_decode = hex_decode;
  ingest_to_json = written ingest_codec;
  ingest_from_json = read ingest_codec;
  control_to_json = written control_codec;
  control_from_json = read control_codec;
  ingest_reply_to_json = written ingest_reply_codec;
  ingest_reply_from_json = read ingest_reply_codec;
  control_reply_to_json = written control_reply_codec;
  control_reply_from_json = read control_reply_codec;
}

pub true_wire-ReadsBack : ReadsBack true_wire
true_wire-ReadsBack = record {
  hex = λ bytes h. hex_decode-hex_encode bytes;
  json_bytes = λ req. ingest_codec.bytes req [] tt;
  ingest = λ req. read-written ingest_codec req;
}

pub true_wire-Faithful : Faithful true_wire
true_wire-Faithful = record {
  requests = true_wire-ReadsBack;
  replies = λ r. read-written ingest_reply_codec r;
  control_bytes = λ req. control_codec.bytes req [] tt;
  controls = λ req. read-written control_codec req;
  control_replies = λ r. read-written control_reply_codec r;
}

enc_all-length : (xs rest : Text) → length xs + length rest ≤ length (enc_all nat xs rest)
enc_all-length [] rest = omega arith
enc_all-length (x ∷ xs) rest =
    let shorter = enc_all-length xs rest in
    elim (Bool-cases (ltb x 255)) [
      | inl small ↦ rw small (omega (arith, shorter))
      | inr large ↦
          let unary = enc_unary-length (x - 255) (enc_all nat xs rest) in
          rw large (omega (arith, shorter, unary))
    ]

text-length : (t rest : Text) → length t ≤ length (text.enc t rest)
text-length t rest =
    let shorter = enc_all-length t rest in
    elim (Bool-cases (ltb (length t) 255)) [
      | inl small ↦ rw small (omega (arith, shorter))
      | inr large ↦
          let unary = enc_unary-length (length t - 255) (enc_all nat t rest) in
          rw large (omega (arith, shorter, unary))
    ]

pub true_wire-Widens : Widens true_wire
true_wire-Widens = record {
  doubled = length-hex_encode;
  enveloped = λ req. text-length req.payload_hex _;
  replies = λ r. read-written ingest_reply_codec r;
}
