-- ===== src/Tests/Codec.antt =====
-- A serialisation into bytes that can be read back, put together from one of numbers, for concrete
-- instances of the encodings that the model takes as parameters.
use ce_pubsub.Prelude.{
  ℕ, zero, suc, ◌+◌, ◌-◌, ◌≤◌, ltb, ltb→lt, ltb_false→le, Bool-cases, if◌then◌else◌, ◌≡◌, refl, ◌⊎◌,
  inl, inr, Option, none, some, List, [], ◌∷◌, length, arith,
}
use ce_pubsub.Prelude.Order.{Text, codes}
use ce_pubsub.Prelude.Result.{Result, ok, err, ◌>>=◌}
use ce_pubsub.Protocol.Decode.{IsBytes}

-- A value in front of what follows it.
pub record Codec {ℓ} (A : Type ℓ) : Type ℓ where
  pub enc : A → Text → Text
  pub dec : Text → Result Text (A × Text)
  pub back : (x : A) (rest : Text) → dec (enc x rest) ≡ ok (x, rest)
  pub bytes : (x : A) (rest : Text) → IsBytes rest → IsBytes (enc x rest)

abbrev pub ended {ℓ} : {A : Type ℓ} → Result Text A
ended = err (codes "end of input")

-- In unary.
abbrev enc_unary : ℕ → Text → Text
enc_unary zero rest = 0 ∷ rest
enc_unary (suc n) rest = 1 ∷ enc_unary n rest

abbrev dec_unary : Text → Result Text (ℕ × Text)
dec_unary [] = ended
dec_unary (zero ∷ rest) = ok (0, rest)
dec_unary (suc b ∷ rest) = dec_unary rest >>= λ p. ok (suc p.0, p.1)

dec_unary-enc_unary : (n : ℕ) (rest : Text) → dec_unary (enc_unary n rest) ≡ ok (n, rest)
dec_unary-enc_unary zero rest = refl
dec_unary-enc_unary (suc n) rest = rw (dec_unary-enc_unary n rest) refl

enc_unary-IsBytes : (n : ℕ) (rest : Text) → IsBytes rest → IsBytes (enc_unary n rest)
enc_unary-IsBytes zero rest h = (omega arith, h)
enc_unary-IsBytes (suc n) rest h = (omega arith, enc_unary-IsBytes n rest h)

pub enc_unary-length : (n : ℕ) (rest : Text) → length rest ≤ length (enc_unary n rest)
enc_unary-length zero rest = omega arith
enc_unary-length (suc n) rest = omega (arith, enc_unary-length n rest)

-- In one byte if it is below 255.
abbrev enc_nat : ℕ → Text → Text
enc_nat n rest = if ltb n 255 then n ∷ rest else 255 ∷ enc_unary (n - 255) rest

abbrev dec_nat : Text → Result Text (ℕ × Text)
dec_nat [] = ended
dec_nat (b ∷ rest) =
    if ltb b 255 then ok (b, rest) else (dec_unary rest >>= λ p. ok (255 + p.0, p.1))

pub dec_nat-enc_nat : (n : ℕ) (rest : Text) → dec_nat (enc_nat n rest) ≡ ok (n, rest)
dec_nat-enc_nat n rest = elim (Bool-cases (ltb n 255)) [
  | inl small ↦ rw (small, small) refl
  | inr large ↦
      let whole : 255 + (n - 255) ≡ n = (let h = ltb_false→le n 255 large in omega (arith, h)) in
      rw (large, dec_unary-enc_unary (n - 255) rest, whole) refl
]

pub enc_nat-IsBytes : (n : ℕ) (rest : Text) → IsBytes rest → IsBytes (enc_nat n rest)
enc_nat-IsBytes n rest h = elim (Bool-cases (ltb n 255)) [
  | inl small ↦ rw small ((let k = ltb→lt n 255 small in omega (arith, k)), h)
  | inr large ↦ rw large (omega arith, enc_unary-IsBytes (n - 255) rest h)
]

abbrev pub nat : Codec ℕ
nat = record { enc = enc_nat; dec = dec_nat; back = dec_nat-enc_nat; bytes = enc_nat-IsBytes }

abbrev pub unit : Codec (Unit {0})
unit = record {
  enc = λ x rest. rest;
  dec = λ text. ok (tt, text);
  back = λ x rest. refl;
  bytes = λ x rest h. h;
}

module _ {A B : Type 0} (a : Codec A) (b : Codec B) where
  abbrev dec_pair : Text → Result Text ((A × B) × Text)
  dec_pair text = a.dec text >>= λ p. b.dec p.1 >>= λ q. ok ((p.0, q.0), q.1)

  pub dec_pair-back :
      (x : A × B) (rest : Text) → dec_pair (a.enc x.0 (b.enc x.1 rest)) ≡ ok (x, rest)
  dec_pair-back x rest = rw (a.back x.0 (b.enc x.1 rest), b.back x.1 rest) refl

  abbrev pub pair : Codec (A × B)
  pair = record {
    enc = λ x rest. a.enc x.0 (b.enc x.1 rest);
    dec = dec_pair;
    back = dec_pair-back;
    bytes = λ x rest h. a.bytes x.0 (b.enc x.1 rest) (b.bytes x.1 rest h);
  }

  abbrev enc_sum : A ⊎ B → Text → Text
  enc_sum (inl x) rest = 0 ∷ a.enc x rest
  enc_sum (inr y) rest = 1 ∷ b.enc y rest

  abbrev dec_sum : Text → Result Text ((A ⊎ B) × Text)
  dec_sum [] = ended
  dec_sum (zero ∷ rest) = a.dec rest >>= λ p. ok (inl p.0, p.1)
  dec_sum (suc n ∷ rest) = b.dec rest >>= λ p. ok (inr p.0, p.1)

  pub dec_sum-enc_sum : (x : A ⊎ B) (rest : Text) → dec_sum (enc_sum x rest) ≡ ok (x, rest)
  dec_sum-enc_sum (inl x) rest = rw (a.back x rest) refl
  dec_sum-enc_sum (inr y) rest = rw (b.back y rest) refl

  pub enc_sum-IsBytes : (x : A ⊎ B) (rest : Text) → IsBytes rest → IsBytes (enc_sum x rest)
  enc_sum-IsBytes (inl x) rest h = (omega arith, a.bytes x rest h)
  enc_sum-IsBytes (inr y) rest h = (omega arith, b.bytes y rest h)

  abbrev pub sum : Codec (A ⊎ B)
  sum = record { enc = enc_sum; dec = dec_sum; back = dec_sum-enc_sum; bytes = enc_sum-IsBytes }

module _ {A : Type 0} (a : Codec A) where
  abbrev pub enc_all : List A → Text → Text
  enc_all [] rest = rest
  enc_all (x ∷ xs) rest = a.enc x (enc_all xs rest)

  abbrev dec_all : ℕ → Text → Result Text (List A × Text)
  dec_all zero text = ok ([], text)
  dec_all (suc n) text = a.dec text >>= λ p. dec_all n p.1 >>= λ q. ok (p.0 ∷ q.0, q.1)

  dec_all-enc_all :
      (xs : List A) (rest : Text) → dec_all (length xs) (enc_all xs rest) ≡ ok (xs, rest)
  dec_all-enc_all [] rest = refl
  dec_all-enc_all (x ∷ xs) rest = rw (a.back x (enc_all xs rest), dec_all-enc_all xs rest) refl

  pub enc_all-IsBytes : (xs : List A) (rest : Text) → IsBytes rest → IsBytes (enc_all xs rest)
  enc_all-IsBytes [] rest h = h
  enc_all-IsBytes (x ∷ xs) rest h = a.bytes x (enc_all xs rest) (enc_all-IsBytes xs rest h)

  pub list-back :
      (xs : List A) (rest : Text)
      → (dec_nat (enc_nat (length xs) (enc_all xs rest)) >>= λ p. dec_all p.0 p.1) ≡ ok (xs, rest)
  list-back xs rest = rw (dec_nat-enc_nat (length xs) (enc_all xs rest)) (dec_all-enc_all xs rest)

  abbrev pub list : Codec (List A)
  list = record {
    enc = λ xs rest. enc_nat (length xs) (enc_all xs rest);
    dec = λ text. dec_nat text >>= λ p. dec_all p.0 p.1;
    back = list-back;
    bytes = λ xs rest h. enc_nat-IsBytes (length xs) (enc_all xs rest) (enc_all-IsBytes xs rest h);
  }

-- A type whose values are written as those of another.
module _ {A B : Type 0} (b : Codec B) (to : A → B) (from : B → A)
    (from-to : (x : A) → from (to x) ≡ x) where
  pub via-back :
      (x : A) (rest : Text)
      → ◌≡◌ {A = Result Text (A × Text)}
          (b.dec (b.enc (to x) rest) >>= λ p. ok (from p.0, p.1))
          (ok (x, rest))
  via-back x rest = rw (b.back (to x) rest, from-to x) refl

  abbrev pub via : Codec A
  via = record {
    enc = λ x rest. b.enc (to x) rest;
    dec = λ text. b.dec text >>= λ p. ok (from p.0, p.1);
    back = via-back;
    bytes = λ x rest h. b.bytes (to x) rest h;
  }

abbrev bit_of : {A : Type 0} → Option A → Unit {0} ⊎ A
bit_of none = inl tt
bit_of (some x) = inr x

abbrev of_bit : {A : Type 0} → Unit {0} ⊎ A → Option A
of_bit (inl u) = none
of_bit (inr x) = some x

pub of_bit-bit_of : {A : Type 0} (o : Option A) → of_bit (bit_of o) ≡ o
of_bit-bit_of none = refl
of_bit-bit_of (some x) = refl

abbrev pub option : {A : Type 0} → Codec A → Codec (Option A)
option a = via (sum unit a) bit_of of_bit of_bit-bit_of

abbrev pub text : Codec Text
text = list nat
