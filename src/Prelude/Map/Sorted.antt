-- ===== src/Prelude/Map/Sorted.antt =====
-- Maps whose entries stand in strictly increasing key order, as a `BTreeMap` iterates over them.
use Prim.Native.Nat.{suc}
use Prim.Native.Nat.Ordering.{lt}
use mathlib.Core.Path.{◌≡◌, refl}
use mathlib.Core.Bool.{Bool, true}
use mathlib.Core.List.{[], ◌∷◌}
use mathlib.Core.Option.{none}
use native.Mathlib.Omega.{arith}
use ce_pubsub.Prelude.Lists.{length}
use ce_pubsub.Prelude.Order.{Order}
use ce_pubsub.Prelude.Map.{Map, lookup, has, insert, remove, modify, retain}

module _ {ℓ κ} {K : Type ℓ} {V : Type κ} ⦃o : Order K⦄ where
  abbrev pub Above : K → Map K V → Type 0
  Above k [] = Unit {0}
  Above k ((j, v) ∷ m) = (o.cmp k j ≡ lt) × Above k m

  abbrev pub IsSorted : Map K V → Type 0
  IsSorted [] = Unit {0}
  IsSorted ((k, v) ∷ m) = Above k m × IsSorted m

  Above-trans : (j k : K) (m : Map K V) → o.cmp j k ≡ lt → Above k m → Above j m
  Above-trans j k [] h a = tt
  Above-trans j k ((i, v) ∷ m) h a = (o.cmp_trans j k i h a.0, Above-trans j k m h a.1)

  Above-insert :
      (j k : K) (v : V) (m : Map K V) → o.cmp j k ≡ lt → Above j m → Above j (insert k v m)
  unfolding insert
  Above-insert j k v [] h a = (h, tt)
  Above-insert j k v ((i, w) ∷ m) h a = ground (arith, Above-insert j k v m h a.1)

  Above-remove : (j k : K) (m : Map K V) → Above j m → Above j (remove k m)
  unfolding remove
  Above-remove j k [] a = tt
  Above-remove j k ((i, w) ∷ m) a = ground (arith, Above-remove j k m a.1)

  Above-retain : (j : K) (p : K → Bool) (m : Map K V) → Above j m → Above j (retain p m)
  unfolding retain
  Above-retain j p [] a = tt
  Above-retain j p ((i, w) ∷ m) a = ground (arith, Above-retain j p m a.1)

  Above-modify : (j k : K) (f : V → V) (m : Map K V) → Above j m → Above j (modify k f m)
  unfolding modify
  Above-modify j k f [] a = tt
  Above-modify j k f ((i, w) ∷ m) a = ground (arith, Above-modify j k f m a.1)

  pub insert-IsSorted : (k : K) (v : V) (m : Map K V) → IsSorted m → IsSorted (insert k v m)
  unfolding insert
  insert-IsSorted k v [] s = (tt, tt)
  insert-IsSorted k v ((j, w) ∷ m) s = ground (
    arith,
    o.cmp_iff k j,
    o.cmp_flip k j,
    Above-trans k j m,
    Above-insert j k v m,
    insert-IsSorted k v m s.1,
  )

  pub remove-IsSorted : (k : K) (m : Map K V) → IsSorted m → IsSorted (remove k m)
  unfolding remove
  remove-IsSorted k [] s = tt
  remove-IsSorted k ((j, w) ∷ m) s = ground (arith, Above-remove j k m s.0, remove-IsSorted k m s.1)

  pub retain-IsSorted : (p : K → Bool) (m : Map K V) → IsSorted m → IsSorted (retain p m)
  unfolding retain
  retain-IsSorted p [] s = tt
  retain-IsSorted p ((j, w) ∷ m) s = ground (arith, Above-retain j p m s.0, retain-IsSorted p m s.1)

  pub modify-IsSorted : (k : K) (f : V → V) (m : Map K V) → IsSorted m → IsSorted (modify k f m)
  unfolding modify
  modify-IsSorted k f [] s = tt
  modify-IsSorted k f ((j, w) ∷ m) s =
      ground (arith, Above-modify j k f m s.0, modify-IsSorted k f m s.1)

  remove-Above : (k : K) (m : Map K V) → Above k m → remove k m ≡ m
  unfolding remove
  remove-Above k [] a = refl
  remove-Above k ((j, w) ∷ m) a = ground (arith, o.cmp_iff j k, o.cmp_iff k j, remove-Above k m a.1)

  lookup-Above : (k : K) (m : Map K V) → Above k m → lookup k m ≡ none
  unfolding lookup
  lookup-Above k [] a = refl
  lookup-Above k ((j, w) ∷ m) a = ground (arith, o.cmp_iff j k, o.cmp_iff k j, lookup-Above k m a.1)

  -- Only one entry goes.
  pub length-remove :
      (k : K) (m : Map K V) → IsSorted m → has k m ≡ true → suc (length (remove k m)) ≡ length m
  unfolding lookup remove
  length-remove k [] s h = cc
  length-remove k ((j, w) ∷ m) s h =
      ground (arith, o.cmp_iff j k, remove-Above j m s.0, length-remove k m s.1)

  -- An insertion under a key that is there replaces its entry.
  pub length-insert_present :
      (k : K) (v : V) (m : Map K V) → IsSorted m → has k m ≡ true → length (insert k v m) ≡ length m
  unfolding lookup insert
  length-insert_present k v [] s h = cc
  length-insert_present k v ((j, w) ∷ m) s h = ground (
    arith,
    o.cmp_iff k j,
    o.cmp_iff j k,
    lookup-Above k m,
    Above-trans k j m,
    length-insert_present k v m s.1,
  )
