-- ===== src/Dedup/Bounds.antt =====
-- The size of both caches, whatever calls they serve.
use ce_pubsub.Prelude.{
  ℕ, ◌≤◌, ◌<◌, ◌≡◌, inl, inr, none, List, [], ◌∷◌, arith, ◌||◌, ◌==◌, leb, ◌-◌, length,
  Option-cases, Bool-cases,
}
use ce_pubsub.Prelude.Order.{Text, same_refl, ℕ_order, text_order}
use ce_pubsub.Prelude.Map.{
  lookup, remove, modify, lookup-modify, lookup-remove, length-modify, length-remove-le,
}
use ce_pubsub.Prelude.Map.Sorted.{IsSorted, insert-IsSorted, remove-IsSorted, modify-IsSorted}
use ce_pubsub.Dedup.{
  Seen, IdempotencyCache, TokenSet, new_cache, new_tokens, expired, get, evict, record_seen,
  record_token, seen,
}
use ce_pubsub.Dedup.Evict.{Tracked, evict-IsSorted, admit}

pub record IsBounded (c : IdempotencyCache) : Type 0 where
  pub positive : 0 < c.capacity
  pub bounded : length c.map ≤ c.capacity
  pub tracked : Tracked c.map c.order
  pub sorted : IsSorted c.map

pub new_cache-IsBounded : (capacity ttl_secs : ℕ) → IsBounded (new_cache capacity ttl_secs)
unfolding new_cache lookup
new_cache-IsBounded capacity ttl_secs = record {
  positive = omega arith;
  bounded = omega arith;
  tracked = λ k h. cc;
  sorted = tt;
}

drop_key-IsBounded :
    (c : IdempotencyCache) (key : Text)
    → IsBounded c
    → IsBounded (record c { map = remove key c.map })
drop_key-IsBounded c key v = record {
  positive = v.positive;
  bounded = let b = v.bounded in omega (arith, length-remove-le key c.map);
  tracked = λ q h. v.tracked q (ground (arith, lookup-remove key q c.map));
  sorted = remove-IsSorted key c.map v.sorted;
}

pub get-IsBounded :
    (c : IdempotencyCache) (key : Text) (now : ℕ) → IsBounded c → IsBounded (get c key now).0
unfolding get
get-IsBounded c key now v = elim (Option-cases (lookup key c.map)) [
  | inl miss ↦ rw (miss, get) v
  | inr ((s, at), hit) ↦ elim (Bool-cases (expired c.ttl_secs now at)) [
    | inl old ↦ rw (hit, get, old) (drop_key-IsBounded c key v)
    | inr live ↦ rw (hit, get, live) v
  ]
]

refresh-IsBounded :
    (c : IdempotencyCache) (key : Text) (f : Seen × ℕ → Seen × ℕ)
    → IsBounded c
    → IsBounded (record c { map = modify key f c.map })
refresh-IsBounded c key f v = record {
  positive = v.positive;
  bounded = let b = v.bounded in omega (arith, length-modify key f c.map);
  tracked = λ q h. v.tracked q (ground (arith, lookup-modify key q f c.map));
  sorted = modify-IsSorted key f c.map v.sorted;
}

pub record_seen-IsBounded :
    (c : IdempotencyCache) (key : Text) (s : Seen) (now : ℕ)
    → IsBounded c
    → IsBounded (record_seen c key s now)
unfolding record_seen
record_seen-IsBounded c key s now v = elim (Option-cases (lookup key c.map)) [
  | inl fresh ↦
      let (bound, kept) = admit c.capacity key (s, now) c.map c.order v.positive fresh v.tracked in
      rw (fresh, record_seen)
        (record {
          positive = v.positive;
          bounded = bound;
          tracked = kept;
          sorted =
              insert-IsSorted key (s, now) (evict c.capacity c.map c.order).0
                (evict-IsSorted c.capacity c.map c.order v.sorted);
        })
  | inr (slot, old) ↦ rw (old, record_seen) (refresh-IsBounded c key (λ _. (s, now)) v)
]

-- A call of one of the two operations.
pub data Call : Type 0 where
  asks : Text → ℕ → Call
  records : Text → Seen → ℕ → Call

pub serve : IdempotencyCache → List Call → IdempotencyCache
serve c [] = c
serve c (asks key now ∷ calls) = serve (get c key now).0 calls
serve c (records key s now ∷ calls) = serve (record_seen c key s now) calls

serve-IsBounded :
    (c : IdempotencyCache) (calls : List Call) → IsBounded c → IsBounded (serve c calls)
unfolding serve
serve-IsBounded c [] v = v
serve-IsBounded c (asks key now ∷ calls) v =
    serve-IsBounded (get c key now).0 calls (get-IsBounded c key now v)
serve-IsBounded c (records key s now ∷ calls) v =
    serve-IsBounded (record_seen c key s now) calls (record_seen-IsBounded c key s now v)

-- Whatever calls it serves, a new cache never holds more than its capacity, and each of its keys
-- stands in the queue of evictions.
serve-new_cache :
    (capacity ttl_secs : ℕ) (calls : List Call)
    → IsBounded (serve (new_cache capacity ttl_secs) calls)
serve-new_cache capacity ttl_secs calls =
    serve-IsBounded (new_cache capacity ttl_secs) calls (new_cache-IsBounded capacity ttl_secs)

pub record IsBoundedSet (s : TokenSet) : Type 0 where
  pub positive : 0 < s.capacity
  pub bounded : length s.map ≤ s.capacity
  pub tracked : Tracked s.map s.order

pub new_tokens-IsBoundedSet : (capacity ttl_secs : ℕ) → IsBoundedSet (new_tokens capacity ttl_secs)
unfolding new_tokens lookup
new_tokens-IsBoundedSet capacity ttl_secs = record {
  positive = omega arith;
  bounded = omega arith;
  tracked = λ q h. absurd (cc);
}

record_token-IsBoundedSet :
    (s : TokenSet) (token now : ℕ)
    → lookup token s.map ≡ none
    → IsBoundedSet s
    → IsBoundedSet (record_token s token now)
unfolding record_token
record_token-IsBoundedSet s token now fresh v =
    let (bound, kept) = admit s.capacity token now s.map s.order v.positive fresh v.tracked in
    record { positive = v.positive; bounded = bound; tracked = kept }

drop_token-IsBoundedSet :
    (s : TokenSet) (token : ℕ)
    → IsBoundedSet s
    → IsBoundedSet (record s { map = remove token s.map })
drop_token-IsBoundedSet s token v = record {
  positive = v.positive;
  bounded = let b = v.bounded in omega (arith, length-remove-le token s.map);
  tracked = λ q h. v.tracked q (ground (arith, lookup-remove token q s.map));
}

-- A token set within its capacity whose tokens all stand in its queue stays so after any call of
-- `seen`.
pub seen-IsBoundedSet :
    (s : TokenSet) (token now : ℕ) → IsBoundedSet s → IsBoundedSet (seen s token now).0
unfolding seen
seen-IsBoundedSet s token now v = elim (Option-cases (lookup token s.map)) [
  | inl fresh ↦ rw (fresh, seen) (record_token-IsBoundedSet s token now fresh v)
  | inr (at, hit) ↦ elim (Bool-cases (s.ttl_secs == 0 || leb (now - at) s.ttl_secs)) [
    | inl live ↦ rw (hit, seen, live) v
    | inr old ↦
        rw (hit, seen, old)
          (record_token-IsBoundedSet (record s { map = remove token s.map }) token now
            (ground (arith, lookup-remove token token s.map, same_refl token))
            (drop_token-IsBoundedSet s token v))
  ]
]
