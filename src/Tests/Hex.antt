-- ===== src/Tests/Hex.antt =====
-- Hex digits, two for each byte.
use ce_pubsub.Prelude.{
  ℕ, ◌+◌, ◌-◌, ◌*◌, ◌/◌, ◌%◌, ◌≡◌, refl, [], ◌∷◌, ltb, ltb→lt, ltb_false→le, if◌then◌else◌,
  Bool-cases, inl, inr, arith, length,
}
use ce_pubsub.Prelude.Order.{Text, codes}
use ce_pubsub.Prelude.Result.{Result, ok, err, ◌>>=◌}

abbrev digit : ℕ → ℕ
digit d = if ltb d 10 then 48 + d else 87 + d

abbrev value : ℕ → ℕ
value c = if ltb c 58 then c - 48 else c - 87

abbrev pub hex_encode : Text → Text
hex_encode [] = []
hex_encode (b ∷ bytes) = digit (b / 16) ∷ digit (b % 16) ∷ hex_encode bytes

abbrev pub hex_decode : Text → Result Text Text
hex_decode [] = ok []
hex_decode (c ∷ []) = err (codes "odd number of digits")
hex_decode (c ∷ d ∷ text) = hex_decode text >>= λ bytes. ok ((16 * value c + value d) ∷ bytes)

value-digit : (d : ℕ) → value (digit d) ≡ d
value-digit d = elim (Bool-cases (ltb d 10)) [
  | inl small ↦ rw small (let h = ltb→lt d 10 small in ground (arith, h))
  | inr large ↦ rw large (let h = ltb_false→le d 10 large in ground (arith, h))
]

pub hex_decode-hex_encode : (bytes : Text) → hex_decode (hex_encode bytes) ≡ ok bytes
hex_decode-hex_encode [] = refl
hex_decode-hex_encode (b ∷ bytes) =
    let whole : 16 * (b / 16) + b % 16 ≡ b = omega arith in
    rw (hex_decode-hex_encode bytes, value-digit (b / 16), value-digit (b % 16), whole) refl

pub length-hex_encode : (bytes : Text) → length (hex_encode bytes) ≡ 2 * length bytes
length-hex_encode [] = refl
length-hex_encode (b ∷ bytes) = omega (arith, length-hex_encode bytes)
