-- ===== src/Prelude/Map.antt =====
-- `BTreeMap` as a list of entries in key order, and the part of its interface that the program
-- uses. A `HashMap` of the program, whose order is never observed, is read the same way.
pub mod Sorted
use Prim.Native.Nat.{suc, ◌≤◌, ◌<◌}
use Prim.Native.Nat.Ordering.{lt, eq, gt}
use mathlib.Core.Path.{◌≡◌, refl}
use mathlib.Core.Bool.{Bool, true}
use mathlib.Core.List.{List, [], ◌∷◌, map}
use mathlib.Core.Option.{Option, none, some}
use mathlib.Core.Option
use native.Mathlib.Omega.{arith}
use ce_pubsub.Prelude.Tests.{if◌then◌else◌, is_some}
use ce_pubsub.Prelude.Lists.{length}
use ce_pubsub.Prelude.Order.{Order, same}

abbrev pub Map {ℓ κ} : Type ℓ → Type κ → Type (ℓ ⊔ κ)
Map K V = List (K × V)

module _ {ℓ κ} {K : Type ℓ} {V : Type κ} where
  abbrev pub keys : Map K V → List K
  keys = map (λ e. e.0)

module _ {ℓ κ} {K : Type ℓ} {V : Type κ} ⦃o : Order K⦄ where
  -- `get`
  unfoldable pub lookup : K → Map K V → Option V
  lookup k [] = none
  lookup k ((j, v) ∷ m) = if same j k then some v else lookup k m

  -- `contains_key`
  abbrev pub has : K → Map K V → Bool
  has k m = is_some (lookup k m)

  -- `insert`
  unfoldable pub insert : K → V → Map K V → Map K V
  insert k v [] = (k, v) ∷ []
  insert k v ((j, w) ∷ m) = elim (o.cmp k j) [
    | lt ↦ (k, v) ∷ (j, w) ∷ m
    | eq ↦ (k, v) ∷ m
    | gt ↦ (j, w) ∷ insert k v m
  ]

  -- `remove`
  unfoldable pub remove : K → Map K V → Map K V
  remove k [] = []
  remove k ((j, v) ∷ m) = if same j k then remove k m else (j, v) ∷ remove k m

  -- A write through `get_mut`: nothing happens if the key is missing.
  unfoldable pub modify : K → (V → V) → Map K V → Map K V
  modify k f [] = []
  modify k f ((j, v) ∷ m) = if same j k then (j, f v) ∷ m else (j, v) ∷ modify k f m

  -- `retain` with a test on the key.
  unfoldable pub retain : (K → Bool) → Map K V → Map K V
  retain p [] = []
  retain p ((j, v) ∷ m) = if p j then (j, v) ∷ retain p m else retain p m

  pub lookup-insert :
      (k q : K) (v : V) (m : Map K V)
      → lookup q (insert k v m) ≡ (if same k q then some v else lookup q m)
  unfolding lookup insert
  lookup-insert k q v [] = refl
  lookup-insert k q v ((j, w) ∷ m) =
      ground (arith, o.cmp_iff k j, o.cmp_iff j q, o.cmp_iff k q, lookup-insert k q v m)

  pub lookup-remove :
      (k q : K) (m : Map K V) → lookup q (remove k m) ≡ (if same k q then none else lookup q m)
  unfolding lookup remove
  lookup-remove k q [] = ground arith
  lookup-remove k q ((j, w) ∷ m) =
      ground (arith, o.cmp_iff j k, o.cmp_iff j q, o.cmp_iff k q, lookup-remove k q m)

  pub lookup-modify :
      (k q : K) (f : V → V) (m : Map K V)
      → lookup q (modify k f m) ≡ (if same k q then Option.map f (lookup q m) else lookup q m)
  unfolding lookup modify
  lookup-modify k q f [] = ground arith
  lookup-modify k q f ((j, w) ∷ m) =
      ground (arith, o.cmp_iff j k, o.cmp_iff j q, o.cmp_iff k q, lookup-modify k q f m)

  pub lookup-retain :
      (p : K → Bool) (q : K) (m : Map K V)
      → lookup q (retain p m) ≡ (if p q then lookup q m else none)
  unfolding lookup retain
  lookup-retain p q [] = ground arith
  lookup-retain p q ((j, w) ∷ m) = ground (arith, o.cmp_iff j q, lookup-retain p q m)

  pub length-insert :
      (k : K) (v : V) (m : Map K V) → lookup k m ≡ none → length (insert k v m) ≡ suc (length m)
  unfolding lookup insert
  length-insert k v [] h = refl
  length-insert k v ((j, w) ∷ m) h =
      ground (arith, o.cmp_iff k j, o.cmp_iff j k, length-insert k v m)

  pub length-modify : (k : K) (f : V → V) (m : Map K V) → length (modify k f m) ≡ length m
  unfolding modify
  length-modify k f [] = refl
  length-modify k f ((j, w) ∷ m) = ground (arith, length-modify k f m)

  pub length-remove-le : (k : K) (m : Map K V) → length (remove k m) ≤ length m
  unfolding remove
  length-remove-le k [] = omega arith
  length-remove-le k ((j, w) ∷ m) = ground (arith, length-remove-le k m)

  pub length-remove-lt : (k : K) (m : Map K V) → has k m ≡ true → length (remove k m) < length m
  unfolding lookup remove
  length-remove-lt k [] h = cc
  length-remove-lt k ((j, w) ∷ m) h = ground (arith, length-remove-lt k m, length-remove-le k m)

  pub length-insert-le : (k : K) (v : V) (m : Map K V) → length (insert k v m) ≤ suc (length m)
  unfolding insert
  length-insert-le k v [] = omega arith
  length-insert-le k v ((j, w) ∷ m) = ground (arith, length-insert-le k v m)
