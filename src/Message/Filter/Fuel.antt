-- ===== src/Message/Filter/Fuel.antt =====
-- The passes of the scanner: each shortens the text, so that it comes to an end, and what each
-- clause it finds looks like.
use ce_pubsub.Prelude.{
  ℕ, zero, suc, ◌≤◌, ◌<◌, ◌≡◌, refl, sym, ap, subst, inl, inr, ◌⊎◌, Bool, true, false, Option, none,
  some, List, [], ◌∷◌, ◌==◌, All, Bool-cases, Option-cases, length, arith,
}
use mathlib.Core.Option
use ce_pubsub.Prelude.Order.{Text}
use ce_pubsub.Prelude.Text.{trim}
use ce_pubsub.Prelude.Result.{Result, ok, >>=-eq-ok, ok-eq, Result-cases, refuse_if}
use ce_pubsub.Caps.{or_fail}
use ce_pubsub.Message.{AttributeFilter}
use ce_pubsub.Message.Filter.{
  FilterError, skip_spaces, split_at, skip_one, key_of, clause, clauses, parse,
}

skip_spaces-length : (s : Text) → length (skip_spaces s) ≤ length s
unfolding skip_spaces
skip_spaces-length [] = omega arith
skip_spaces-length (b ∷ s) = ground (arith, skip_spaces-length s)

skip_one-length : (c : ℕ) (s rest : Text) → skip_one c s ≡ some rest → length rest < length s
unfolding skip_one
skip_one-length c [] rest h = absurd (cc)
skip_one-length c (b ∷ s) rest h = ground (arith, h)

skip_one-or : (c : ℕ) (s : Text) → length (Option.get_or (skip_one c s) s) ≤ length s
unfolding skip_one
skip_one-or c [] = omega arith
skip_one-or c (b ∷ s) = ground (arith)

abbrev pub HasNo : ℕ → Text → Type 0
HasNo c = All (λ b. (b == c) ≡ false)

pub some_eq : {A : Type 0} {x y : A} → ◌≡◌ {A = Option A} (some x) (some y) → x ≡ y
some_eq h = cc

pub split_at-lem :
    (c : ℕ) (s a r : Text) → split_at c s ≡ some (a, r) → (length r < length s) × HasNo c a
unfolding split_at
split_at-lem c [] a r h = absurd (cc)
split_at-lem c (b ∷ s) a r h = elim (Bool-cases (b == c)) [
  | inl here ↦
      let pair_eq : ([], s) ≡ (a, r) = some_eq (rw (here, split_at) at h) in
      subst (λ p. (length p.1 < suc (length s)) × HasNo c p.0) pair_eq (omega arith, tt)
  | inr on ↦ elim (Option-cases (split_at c s)) [
    | inl gone ↦ absurd (ground (arith, rw (on, gone, split_at) at h))
    | inr ((a', r'), found) ↦
        let pair_eq : (b ∷ a', r') ≡ (a, r) = some_eq (rw (on, found, split_at) at h) in
        let (shorter, none_of) = split_at-lem c s a' r' found in
        subst (λ p. (length p.1 < suc (length s)) × HasNo c p.0) pair_eq
          (omega (arith, shorter), (on, none_of))
  ]
]

or_fail-eq :
    {A : Type 0} (o : Option A) (why : FilterError) (a : A)
    → ◌≡◌ {A = Result FilterError A} (or_fail o why) (ok a)
    → o ≡ some a
or_fail-eq none why a h = absurd (cc)
or_fail-eq (some b) why a h = cc

refuse_if-eq :
    (b : Bool) (why : FilterError)
    → ◌≡◌ {A = Result FilterError (Unit {0})} (refuse_if b why) (ok tt)
    → b ≡ false
refuse_if-eq true why h = absurd (cc)
refuse_if-eq false why h = refl

-- What a pass that succeeds has found: a key that is not empty and a value without quotes, and it
-- has taken up at least one byte.
clause-lem :
    (s : Text) (kv : Text × Text) (rest : Text)
    → clause s ≡ ok (kv, rest)
    → (length rest < length s) × ((length kv.0 == 0) ≡ false) × HasNo b'"' kv.1
unfolding clause
clause-lem s kv rest h =
    let (found, first, h1) = >>=-eq-ok (or_fail (split_at b'=' s) FilterError.missing_equals) _ h in
    let value = skip_spaces (Option.get_or (skip_one b'=' found.1) found.1) in
    let (opened, second, h2) =
      >>=-eq-ok (or_fail (skip_one b'"' value) (FilterError.not_quoted (key_of found.0))) _ h1 in
    let (closed, third, h3) =
      >>=-eq-ok (or_fail (split_at b'"' opened) (FilterError.unterminated (key_of found.0))) _ h2 in
    let (u, fourth, h4) =
      >>=-eq-ok (refuse_if (length (key_of found.0) == 0) FilterError.empty_key) _ h3 in
    let result = ok-eq h4 in
    let a = split_at-lem b'=' s found.0 found.1 (or_fail-eq _ _ _ first) in
    let b = skip_one-length b'"' value opened (or_fail-eq _ _ _ second) in
    let b' = skip_spaces-length (Option.get_or (skip_one b'=' found.1) found.1) in
    let b'' = skip_one-or b'=' found.1 in
    let c = split_at-lem b'"' opened closed.0 closed.1 (or_fail-eq _ _ _ third) in
    subst
      (λ (p : (Text × Text) × Text).
        (length p.1 < length s) × ((length p.0.0 == 0) ≡ false) × HasNo b'"' p.0.1)
      result (omega (arith, a.0, b, b', b'', c.0), refuse_if-eq _ _ fourth, c.1)

List-cases : (s : Text) → (s ≡ []) ⊎ ((p : ℕ × Text) × (s ≡ p.0 ∷ p.1))
List-cases [] = inl refl
List-cases (b ∷ s) = inr ((b, s), refl)

clauses-[] : (fuel : ℕ) → clauses fuel [] ≡ ok []
unfolding clauses skip_spaces
clauses-[] zero = refl
clauses-[] (suc fuel) = refl

-- The scanner's loop comes to an end within as many passes as the text has bytes: any two fuels
-- of that size or more give the same result.
pub clauses-fuel :
    (fuel other : ℕ) (s : Text)
    → length s ≤ fuel
    → length s ≤ other
    → clauses other s ≡ clauses fuel s
unfolding clauses
clauses-fuel zero other [] h k = clauses-[] other
clauses-fuel zero other (b ∷ s) h k = absurd (omega (arith, h))
clauses-fuel (suc fuel) zero [] h k = sym (clauses-[] (suc fuel))
clauses-fuel (suc fuel) zero (b ∷ s) h k = absurd (omega (arith, k))
clauses-fuel (suc fuel) (suc other) s h k = elim (List-cases (skip_spaces s)) [
  | inl over ↦ rw (over, clauses) refl
  | inr (p, on) ↦ elim (Result-cases (clause (p.0 ∷ p.1))) [
    | inl (why, bad) ↦ rw (on, clauses, bad) refl
    | inr ((kv, rest), good) ↦
        let (shorter, key, value) = clause-lem (p.0 ∷ p.1) kv rest good in
        let skipped = skip_spaces-length s in
        let size : length (p.0 ∷ p.1) ≡ length (skip_spaces s) = ap length (sym on) in
        let same_ =
          clauses-fuel fuel other rest (omega (arith, shorter, skipped, size, h))
            (omega (arith, shorter, skipped, size, k)) in
        rw (on, clauses, good, same_) refl
  ]
]

abbrev pub IsFound : Text × Text → Type 0
IsFound kv = ((length kv.0 == 0) ≡ false) × HasNo b'"' kv.1

-- Every clause that is read has a key that is not empty and a value without quotes.
clauses-lem :
    (fuel : ℕ) (s : Text) (kvs : List (Text × Text)) → clauses fuel s ≡ ok kvs → All IsFound kvs
unfolding clauses
clauses-lem zero s kvs h = subst (All IsFound) (ok-eq h) tt
clauses-lem (suc fuel) s kvs h = elim (List-cases (skip_spaces s)) [
  | inl over ↦ subst (All IsFound) (ok-eq (rw (over, clauses) at h)) tt
  | inr (p, on) ↦
      let ((kv, rest), good, h1) = >>=-eq-ok (clause (p.0 ∷ p.1)) _ (rw (on, clauses) at h) in
      let (more, read, h2) = >>=-eq-ok (clauses fuel rest) _ h1 in
      let (shorter, key, value) = clause-lem (p.0 ∷ p.1) kv rest good in
      subst (All IsFound) (ok-eq h2) ((key, value), clauses-lem fuel rest more read)
]

-- Whatever text is read as a filter, each of its clauses has a key that is not empty and a value
-- without quotes.
pub parse-lem : (s : Text) (f : AttributeFilter) → parse s ≡ ok f → All IsFound f.clauses
unfolding parse
parse-lem s f h = elim (Bool-cases (length (trim s) == 0)) [
  | inl nothing ↦
      subst (λ (g : AttributeFilter). All IsFound g.clauses) (ok-eq (rw nothing at h)) tt
  | inr text ↦
      let (found, read, h1) = >>=-eq-ok (clauses (length (trim s)) (trim s)) _ (rw text at h) in
      subst (λ (g : AttributeFilter). All IsFound g.clauses) (ok-eq h1)
        (clauses-lem (length (trim s)) (trim s) found read)
]
