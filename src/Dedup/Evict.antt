-- ===== src/Dedup/Evict.antt =====
-- The eviction loop, for any kind of key.
use ce_pubsub.Prelude.{
  ℕ, ◌≤◌, ◌<◌, ◌≡◌, refl, inl, inr, Bool, true, false, ◌||◌, none, List, [], ◌∷◌, ◌++◌, arith, leb,
  length, Bool-cases, leb_false→lt,
}
use ce_pubsub.Prelude.Order.{Order, same, same_refl}
use ce_pubsub.Prelude.Map.{
  Map, lookup, has, insert, remove, lookup-remove, lookup-insert, length-remove-lt, length-insert,
}
use ce_pubsub.Prelude.Map.Sorted.{IsSorted, remove-IsSorted}
use ce_pubsub.Dedup.{evict}

module _ {ℓ} {K : Type ℓ} ⦃o : Order K⦄ where
  unfoldable pub member : K → List K → Bool
  member k [] = false
  member k (x ∷ xs) = same x k || member k xs

  pub member-snoc : (k x : K) (xs : List K) → member k (xs ++ x ∷ []) ≡ (member k xs || same x k)
  unfolding member
  member-snoc k x [] = ground arith
  member-snoc k x (y ∷ ys) = ground (arith, member-snoc k x ys)

module _ {ℓ κ} {K : Type ℓ} {V : Type κ} ⦃o : Order K⦄ where
  -- Every key of the map waits in the queue.
  abbrev pub Tracked : Map K V → List K → Type ℓ
  Tracked m order = (k : K) → has k m ≡ true → member k order ≡ true

  Tracked-nil : (m : Map K V) → Tracked m [] → m ≡ []
  unfolding lookup member
  Tracked-nil [] t = refl
  Tracked-nil ((k, v) ∷ m) t = absurd (ground (arith, t k, same_refl k))

  Tracked-remove :
      (k : K) (ks : List K) (m : Map K V) → Tracked m (k ∷ ks) → Tracked (remove k m) ks
  unfolding member
  Tracked-remove k ks m t = λ q h. ground (arith, t q, lookup-remove k q m)

  -- The loop ends below the capacity, and what it leaves is tracked still.
  pub evict-lt :
      (capacity : ℕ) (m : Map K V) (order : List K)
      → 0 < capacity
      → Tracked m order
      → (length (evict capacity m order).0 < capacity)
        × Tracked (evict capacity m order).0 (evict capacity m order).1
  unfolding evict
  evict-lt capacity m [] pos t = (rw (Tracked-nil m t) pos, t)
  evict-lt capacity m (k ∷ ks) pos t = elim (Bool-cases (leb capacity (length m))) [
    | inl full ↦ rw full (evict-lt capacity (remove k m) ks pos (Tracked-remove k ks m t))
    | inr room ↦ rw room (leb_false→lt capacity (length m) room, t)
  ]

  -- Below the capacity nothing is evicted.
  pub evict_idle :
      (capacity : ℕ) (m : Map K V) (order : List K)
      → length m < capacity
      → evict capacity m order ≡ (m, order)
  unfolding evict
  evict_idle capacity m [] h = refl
  evict_idle capacity m (k ∷ ks) h = ground arith

  -- At the capacity one entry goes, if the front of the queue is a key of the map.
  pub evict_full :
      (capacity : ℕ) (m : Map K V) (k : K) (ks : List K)
      → length m ≡ capacity
      → has k m ≡ true
      → evict capacity m (k ∷ ks) ≡ (remove k m, ks)
  unfolding evict
  evict_full capacity m k ks e h =
      let fewer : length (remove k m) < capacity = omega (arith, length-remove-lt k m h) in
      ground (arith, evict_idle capacity (remove k m) ks fewer)

  pub lookup-evict-none :
      (capacity : ℕ) (q : K) (m : Map K V) (order : List K)
      → lookup q m ≡ none
      → lookup q (evict capacity m order).0 ≡ none
  unfolding evict
  lookup-evict-none capacity q m [] h = h
  lookup-evict-none capacity q m (k ∷ ks) h = elim (Bool-cases (leb capacity (length m))) [
    | inl full ↦
        rw full (lookup-evict-none capacity q (remove k m) ks (ground (arith, lookup-remove k q m)))
    | inr room ↦ rw room h
  ]

  pub evict-IsSorted :
      (capacity : ℕ) (m : Map K V) (order : List K)
      → IsSorted m
      → IsSorted (evict capacity m order).0
  unfolding evict
  evict-IsSorted capacity m [] s = s
  evict-IsSorted capacity m (k ∷ ks) s = elim (Bool-cases (leb capacity (length m))) [
    | inl full ↦ rw full (evict-IsSorted capacity (remove k m) ks (remove-IsSorted k m s))
    | inr room ↦ rw room s
  ]

  Tracked-insert :
      (k : K) (v : V) (m : Map K V) (order : List K)
      → Tracked m order
      → Tracked (insert k v m) (order ++ k ∷ [])
  Tracked-insert k v m order t =
      λ q h. ground (arith, t q, lookup-insert k q v m, member-snoc q k order)

  -- The tail of both insertions: make room, add the key at the back.
  pub admit :
      (capacity : ℕ) (k : K) (v : V) (m : Map K V) (order : List K)
      → 0 < capacity
      → lookup k m ≡ none
      → Tracked m order
      → (length (insert k v (evict capacity m order).0) ≤ capacity)
        × Tracked (insert k v (evict capacity m order).0) ((evict capacity m order).1 ++ k ∷ [])
  admit capacity k v m order pos fresh t =
      let (below, kept) = evict-lt capacity m order pos t in
      (
        omega (
          arith,
          length-insert k v (evict capacity m order).0 (lookup-evict-none capacity k m order fresh),
        ),
        Tracked-insert k v (evict capacity m order).0 (evict capacity m order).1 kept,
      )
