-- ===== src/Prelude/Result.antt =====
-- `Result` with any type of errors, for `?` and early returns.
use mathlib.Core.Path.{◌≡◌, refl}
use mathlib.Core.Logic.{◌⊎◌, inl, inr}
use mathlib.Core.Bool.{Bool, true, false}

pub data Result {ℓ κ} (E : Type κ) (A : Type ℓ) : Type (ℓ ⊔ κ) where
  ok : A → Result E A
  err : E → Result E A

infixl 5 ◌>>=◌
abbrev pub ◌>>=◌ {κ ℓ μ} :
    {E : Type κ} {A : Type ℓ} {B : Type μ} → Result E A → (A → Result E B) → Result E B
err why >>= next = err why
ok x >>= next = next x

-- A statement of a do block whose value is not used.
infixl 5 ◌>>◌
abbrev pub ◌>>◌ {κ ℓ} : {E : Type κ} {A : Type ℓ} → Result E (Unit {0}) → Result E A → Result E A
first >> rest = first >>= (λ done. rest)

-- `if bad { return Err(why) }`
abbrev pub refuse_if {κ} : {E : Type κ} → Bool → E → Result E (Unit {0})
refuse_if false why = ok tt
refuse_if true why = err why

pub Result-cases {ℓ κ} :
    {E : Type κ} {A : Type ℓ} (r : Result E A)
    → ((why : E) × (r ≡ err why)) ⊎ ((x : A) × (r ≡ ok x))
Result-cases (err why) = inl (why, refl)
Result-cases (ok x) = inr (x, refl)

-- What is known of both parts when a chain comes to an end without an error.
pub >>=-eq-ok {ℓ κ μ} :
    {E : Type κ} {A : Type ℓ} {B : Type μ} (r : Result E A) (next : A → Result E B) {y : B}
    → (r >>= next) ≡ ok y
    → (x : A) × (r ≡ ok x) × (next x ≡ ok y)
>>=-eq-ok (err why) next h = absurd (cc)
>>=-eq-ok (ok x) next h = (x, refl, h)

pub ok-eq {ℓ κ} : {E : Type κ} {A : Type ℓ} {x y : A} → ◌≡◌ {A = Result E A} (ok x) (ok y) → x ≡ y
ok-eq h = cc

pub >>=-assoc {κ ℓ μ ν} :
    {E : Type κ} {A : Type ℓ} {B : Type μ} {C : Type ν} (r : Result E A) (f : A → Result E B)
    (g : B → Result E C)
    → (r >>= λ x. f x >>= g) ≡ (r >>= f >>= g)
>>=-assoc (ok x) f g = refl
>>=-assoc (err why) f g = refl
