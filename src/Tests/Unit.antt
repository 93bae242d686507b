-- ===== src/Tests/Unit.antt =====
-- The repository's own tests of its pure parts, run on the models: each test is the conjunction of
-- what it asserts.
pub mod Leases
pub mod Walkthrough
pub mod Messages
pub mod Floors
pub mod Logs
pub mod Caches
pub use ce_pubsub.Example.{leased_is}
use ce_pubsub.Prelude.{ℕ, Bool, true, false, ◌&&◌, ◌||◌, ◌==◌, Option, none, some, List, [], ◌∷◌}
use ce_pubsub.Prelude.Result.{Result, ok, err}

-- `assert_eq!` on lists of cursors; on cursors with attempts it is that of the example.
abbrev pub cursors_eq : List ℕ → List ℕ → Bool
cursors_eq [] [] = true
cursors_eq [] (y ∷ ys) = false
cursors_eq (x ∷ xs) [] = false
cursors_eq (x ∷ xs) (y ∷ ys) = x == y && cursors_eq xs ys

abbrev pub is_nil {ℓ} : {A : Type ℓ} → List A → Bool
is_nil [] = true
is_nil (x ∷ xs) = false

abbrev pub is_none {ℓ} : {A : Type ℓ} → Option A → Bool
is_none none = true
is_none (some a) = false

abbrev pub is_ok {ℓ κ} : {E : Type κ} {A : Type ℓ} → Result E A → Bool
is_ok (ok a) = true
is_ok (err e) = false
