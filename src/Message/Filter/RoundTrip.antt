-- ===== src/Message/Filter/RoundTrip.antt =====
-- Filters that are written out and read back.
use ce_pubsub.Prelude.{
  ℕ, zero, suc, ◌+◌, ◌≤◌, ◌<◌, ◌≡◌, refl, sym, ap, ◌∙◌, true, false, none, some, List, [], ◌∷◌,
  ◌++◌, ◌==◌, All, length, length-append, arith,
}
use mathlib.Core.List.{reverse, reverse-cons, reverse-append, reverse-reverse, append_assoc}
use ce_pubsub.Prelude.Order.{Text, codes}
use ce_pubsub.Prelude.Text.{white_1, white_2, white_3, white_front, white_back, strip, trim}
use ce_pubsub.Prelude.Result.{ok, ◌>>=◌}
use ce_pubsub.Message.{topic_char}
use ce_pubsub.Message.Filter.{
  is_space, skip_spaces, split_at, strip_prefix, skip_one, key_of, clause, clauses, parse,
}

-- A byte of an ASCII character that is no white space, at the head of a text.
abbrev IsSolid : Text → Type 0
IsSolid [] = Unit
IsSolid (a ∷ s) = (a < 128) × (white_1 a ≡ false)

white_front-IsSolid : (s : Text) → IsSolid s → white_front s ≡ 0
unfolding white_front white_1 white_2 white_3
white_front-IsSolid [] h = refl
white_front-IsSolid (a ∷ []) h = ground (arith, h)
white_front-IsSolid (a ∷ b ∷ []) h = ground (arith, h)
white_front-IsSolid (a ∷ b ∷ c ∷ s) h = ground (arith, h)

white_back-IsSolid : (s : Text) → IsSolid s → white_back s ≡ 0
unfolding white_back white_1 white_2 white_3
white_back-IsSolid [] h = refl
white_back-IsSolid (a ∷ []) h = ground (arith, h)
white_back-IsSolid (a ∷ b ∷ []) h = ground (arith, h)
white_back-IsSolid (a ∷ b ∷ c ∷ s) h = ground (arith, h)

strip-solid : (white : Text → ℕ) (n : ℕ) (s : Text) → white s ≡ 0 → strip white n s ≡ s
unfolding strip
strip-solid white zero s h = refl
strip-solid white (suc n) s h = rw (strip, h) refl

-- A text with both ends solid has nothing to trim.
trim-IsSolid : (s : Text) → IsSolid s → IsSolid (reverse s) → trim s ≡ s
unfolding trim
trim-IsSolid s front back =
    let f = strip-solid white_front (length s) s (white_front-IsSolid s front) in
    let b = strip-solid white_back (length s) (reverse s) (white_back-IsSolid (reverse s) back) in
    rw (f, b) (reverse-reverse s)

-- Written without white space, `=` and quotes, as the names of topics are.
abbrev pub IsBare : Text → Type 0
IsBare = All (λ c. topic_char c ≡ true)

topic_char-solid : (c : ℕ) → topic_char c ≡ true → (c < 128) × (white_1 c ≡ false)
unfolding topic_char white_1
topic_char-solid c h = ground (arith, h)

topic_char-space : (c : ℕ) → topic_char c ≡ true → is_space c ≡ false
unfolding topic_char is_space
topic_char-space c h = ground (arith, h)

topic_char-equals : (c : ℕ) → topic_char c ≡ true → (c == b'=') ≡ false
unfolding topic_char
topic_char-equals c h = ground (arith, h)

IsBare-IsSolid : (s : Text) → IsBare s → IsSolid s
IsBare-IsSolid [] h = tt
IsBare-IsSolid (c ∷ s) h = topic_char-solid c h.0

IsBare-append : (s t : Text) → IsBare s → IsBare t → IsBare (s ++ t)
IsBare-append [] t h k = k
IsBare-append (c ∷ s) t h k = (h.0, IsBare-append s t h.1 k)

IsBare-reverse : (s : Text) → IsBare s → IsBare (reverse s)
IsBare-reverse [] h = tt
IsBare-reverse (c ∷ s) h =
    rw (reverse-cons c s) (IsBare-append (reverse s) (c ∷ []) (IsBare-reverse s h.1) (h.0, tt))

IsBare-equals : (s : Text) → IsBare s → All (λ b. (b == b'=') ≡ false) s
IsBare-equals [] h = tt
IsBare-equals (c ∷ s) h = (topic_char-equals c h.0, IsBare-equals s h.1)

trim-IsBare : (s : Text) → IsBare s → trim s ≡ s
trim-IsBare s h =
    trim-IsSolid s (IsBare-IsSolid s h) (IsBare-IsSolid (reverse s) (IsBare-reverse s h))

pub split_at-append :
    (c : ℕ) (s rest : Text)
    → All (λ b. (b == c) ≡ false) s
    → split_at c (s ++ c ∷ rest) ≡ some (s, rest)
unfolding split_at
split_at-append c [] rest h = ground arith
split_at-append c (b ∷ s) rest h = rw (h.0, split_at-append c s rest h.1) refl

pub zero_test : (n : ℕ) → 0 < n → (n == 0) ≡ false
zero_test n h = ground (arith, h)

-- A clause that needs no escape: a bare key that does not begin as the stripped prefix does, and a
-- value without quotes.
pub record IsPlain (kv : Text × Text) : Type 0 where
  pub some_key : 0 < length kv.0
  pub bare : IsBare kv.0
  pub no_prefix : strip_prefix (codes "attributes.") kv.0 ≡ none
  pub no_quote : All (λ b. (b == b'"') ≡ false) kv.1

abbrev pub quoted : Text × Text → Text → Text
quoted kv rest = kv.0 ++ (b'=' ∷ (b'"' ∷ (kv.1 ++ (b'"' ∷ rest))))

-- The compact form of a filter.
abbrev pub written : List (Text × Text) → Text
written [] = []
written (kv ∷ []) = quoted kv []
written (kv ∷ next ∷ kvs) = quoted kv (32 ∷ written (next ∷ kvs))

clause-quoted :
    (kv : Text × Text) (rest : Text) → IsPlain kv → clause (quoted kv rest) ≡ ok (kv, rest)
unfolding clause key_of skip_one skip_spaces is_space
clause-quoted kv rest plain =
    let key =
      split_at-append b'=' kv.0 (b'"' ∷ (kv.1 ++ (b'"' ∷ rest))) (IsBare-equals kv.0 plain.bare) in
    let value = split_at-append b'"' kv.1 rest plain.no_quote in
    let there = zero_test (length kv.0) plain.some_key in
    rw (key, value, trim-IsBare kv.0 plain.bare, plain.no_prefix, there, clause, key_of) refl

skip_spaces-solid : (s : Text) → IsSolid s → skip_spaces s ≡ s
unfolding skip_spaces is_space white_1
skip_spaces-solid [] h = refl
skip_spaces-solid (a ∷ s) h = ground (arith, h)

quoted-IsSolid : (kv : Text × Text) (rest : Text) → IsPlain kv → IsSolid (quoted kv rest)
quoted-IsSolid ([], v) rest plain = let h = plain.some_key in absurd (omega (arith, h))
quoted-IsSolid (c ∷ k, v) rest plain = topic_char-solid c (plain.bare).0

-- One pass of the loop.
clauses-next :
    (fuel : ℕ) (s : Text) (b : ℕ) (rest : Text)
    → skip_spaces s ≡ b ∷ rest
    → clauses (suc fuel) s
      ≡ (clause (b ∷ rest) >>= λ p. clauses fuel p.1 >>= λ more. ok (p.0 ∷ more))
unfolding clauses
clauses-next fuel s b rest e = rw (e, clauses) refl

clauses-quoted :
    (fuel : ℕ) (kv : Text × Text) (rest : Text)
    → IsPlain kv
    → clauses (suc fuel) (quoted kv rest) ≡ (clauses fuel rest >>= λ more. ok (kv ∷ more))
clauses-quoted fuel ([], v) rest plain = let h = plain.some_key in absurd (omega (arith, h))
clauses-quoted fuel (c ∷ k, v) rest plain =
    let solid = skip_spaces-solid (quoted (c ∷ k, v) rest) (quoted-IsSolid (c ∷ k, v) rest plain) in
    clauses-next fuel (quoted (c ∷ k, v) rest) c _ solid
    ∙ ap (λ r. r >>= λ p. clauses fuel p.1 >>= λ more. ok (p.0 ∷ more))
        (clause-quoted (c ∷ k, v) rest plain)

clauses-space : (fuel : ℕ) (s : Text) → clauses fuel (32 ∷ s) ≡ clauses fuel s
unfolding clauses skip_spaces is_space
clauses-space zero s = refl
clauses-space (suc fuel) s = refl

clauses-written :
    (fuel : ℕ) (kvs : List (Text × Text))
    → length kvs ≤ fuel
    → All IsPlain kvs
    → clauses fuel (written kvs) ≡ ok kvs
unfolding clauses skip_spaces
clauses-written zero [] h plain = refl
clauses-written (suc fuel) [] h plain = refl
clauses-written zero (kv ∷ kvs) h plain = absurd (omega (arith, h))
clauses-written (suc fuel) (kv ∷ []) h plain =
    rw (clauses-quoted fuel kv [] plain.0, clauses-written fuel [] (omega arith) tt) refl
clauses-written (suc fuel) (kv ∷ next ∷ kvs) h plain =
    rw
      (
        clauses-quoted fuel kv (32 ∷ written (next ∷ kvs)) plain.0,
        clauses-space fuel (written (next ∷ kvs)),
        clauses-written fuel (next ∷ kvs) (omega (arith, h)) plain.1,
      )
      refl

length-quoted :
    (kv : Text × Text) (rest : Text)
    → length (quoted kv rest) ≡ length kv.0 + (3 + (length kv.1 + length rest))
length-quoted kv rest =
    let inner = length-append kv.1 (b'"' ∷ rest) in
    let outer = length-append kv.0 (b'=' ∷ (b'"' ∷ (kv.1 ++ (b'"' ∷ rest)))) in
    omega (arith, inner, outer)

quoted-append :
    (kv : Text × Text) (rest more : Text) → quoted kv rest ++ more ≡ quoted kv (rest ++ more)
quoted-append kv rest more =
    append_assoc kv.0 (b'=' ∷ (b'"' ∷ (kv.1 ++ (b'"' ∷ rest)))) more
    ∙ ap (λ t. kv.0 ++ (b'=' ∷ (b'"' ∷ t))) (append_assoc kv.1 (b'"' ∷ rest) more)

length-written : (kvs : List (Text × Text)) → length kvs ≤ length (written kvs)
length-written [] = omega arith
length-written (kv ∷ []) = omega (arith, length-quoted kv [])
length-written (kv ∷ next ∷ kvs) =
    omega (arith, length-written (next ∷ kvs), length-quoted kv (32 ∷ written (next ∷ kvs)))

written-ends :
    (kv : Text × Text) (kvs : List (Text × Text))
    → (s : Text) × (written (kv ∷ kvs) ≡ s ++ b'"' ∷ [])
written-ends kv [] =
    (kv.0 ++ (b'=' ∷ (b'"' ∷ kv.1)), sym (append_assoc kv.0 (b'=' ∷ (b'"' ∷ kv.1)) (b'"' ∷ [])))
written-ends kv (next ∷ kvs) =
    let (s, e) = written-ends next kvs in
    (quoted kv (32 ∷ s), rw e (sym (quoted-append kv (32 ∷ s) (b'"' ∷ []))))

written-IsSolid :
    (kv : Text × Text) (kvs : List (Text × Text)) → IsPlain kv → IsSolid (written (kv ∷ kvs))
written-IsSolid kv [] plain = quoted-IsSolid kv [] plain
written-IsSolid kv (next ∷ kvs) plain = quoted-IsSolid kv (32 ∷ written (next ∷ kvs)) plain

trim-written :
    (kv : Text × Text) (kvs : List (Text × Text))
    → IsPlain kv
    → trim (written (kv ∷ kvs)) ≡ written (kv ∷ kvs)
unfolding white_1
trim-written kv kvs plain =
    let (s, e) = written-ends kv kvs in
    let back : IsSolid (reverse (written (kv ∷ kvs))) =
      rw (e, reverse-append s (b'"' ∷ [])) (omega arith, refl) in
    trim-IsSolid (written (kv ∷ kvs)) (written-IsSolid kv kvs plain) back

-- A filter whose clauses have keys of the characters of a topic name, not empty and without the
-- stripped prefix, and values without quotes, written in the compact form, is read back as it
-- was.
pub parse-written :
    (kvs : List (Text × Text))
    → All IsPlain kvs
    → parse (written kvs) ≡ ok (record { clauses = kvs })
unfolding parse trim
parse-written [] plain = refl
parse-written (kv ∷ kvs) plain =
    let text = written (kv ∷ kvs) in
    let long = length-written (kv ∷ kvs) in
    let found = clauses-written (length text) (kv ∷ kvs) long plain in
    let some_ = zero_test (length text) (omega (arith, long)) in
    rw (trim-written kv kvs plain.0, some_, found) refl
