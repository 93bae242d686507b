-- ===== src/Protocol/Decode.antt =====
-- The bounds that decoding enforces, and the round trip.
use ce_pubsub.Prelude.{◌≤◌, ◌<◌, All, ◌≡◌, refl, false, arith, le→ltb_false, length}
use ce_pubsub.Prelude.Order.{Text}
use ce_pubsub.Prelude.Result.{ok}
use ce_pubsub.Protocol.{
  IngestRequest, Wire, max_ingest_hex_bytes, id_too_long, decode_ingest, decode_ingest_hex,
}

-- Whatever the peer sends, if it decodes as an ingest request then the body and the payload are
-- within the bound on hex, and the idempotency key is not too long.
decode_ingest_hex-bounds :
    (w : Wire) (body : Text) (req : IngestRequest)
    → decode_ingest_hex w body ≡ ok req
    → (length body ≤ max_ingest_hex_bytes)
      × (length req.payload_hex ≤ max_ingest_hex_bytes)
      × (id_too_long req.idempotency_key ≡ false)
unfolding decode_ingest_hex decode_ingest
decode_ingest_hex-bounds w body req h = ground (arith, h)

abbrev pub IsBytes : Text → Type 0
IsBytes = All (λ b. b < 256)

-- What the encodings promise: they can be read back.
pub record ReadsBack (w : Wire) : Type 0 where
  pub hex : (bytes : Text) → IsBytes bytes → w.hex_decode (w.hex_encode bytes) ≡ ok bytes
  pub json_bytes : (req : IngestRequest) → IsBytes (w.ingest_to_json req)
  pub ingest : (req : IngestRequest) → w.ingest_from_json (w.ingest_to_json req) ≡ ok req

-- If the encodings can be read back, a request whose body and payload are within the bounds and
-- whose idempotency key is not too long arrives at the owner's decoder as it was sent.
pub decode-encode :
    (w : Wire) (laws : ReadsBack w) (req : IngestRequest)
    → length (w.hex_encode (w.ingest_to_json req)) ≤ max_ingest_hex_bytes
    → length (w.ingest_to_json req) ≤ max_ingest_hex_bytes
    → length req.payload_hex ≤ max_ingest_hex_bytes
    → id_too_long req.idempotency_key ≡ false
    → decode_ingest_hex w (w.hex_encode (w.ingest_to_json req)) ≡ ok req
unfolding decode_ingest_hex decode_ingest
decode-encode w laws req a b c d =
    rw
      (
        le→ltb_false max_ingest_hex_bytes (length (w.hex_encode (w.ingest_to_json req))) a,
        laws.hex (w.ingest_to_json req) (laws.json_bytes req),
        le→ltb_false max_ingest_hex_bytes (length (w.ingest_to_json req)) b,
        laws.ingest,
        le→ltb_false max_ingest_hex_bytes (length req.payload_hex) c,
        d,
      )
      refl
