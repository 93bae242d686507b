-- ===== src/Dedup/Recall.antt =====
-- What the caches remember of a call that was just made.
use ce_pubsub.Prelude.{ℕ, ◌-◌, ◌≤◌, ◌≡◌, refl, inl, inr, true, false, some, arith, Option-cases}
use ce_pubsub.Prelude.Order.{Text, same_refl, ℕ_order, text_order}
use ce_pubsub.Prelude.Map.{lookup, remove, lookup-insert, lookup-modify}
use ce_pubsub.Dedup.{
  Seen, IdempotencyCache, TokenSet, expired, get, evict, record_seen, record_token, seen,
}

pub lookup-record_seen :
    (c : IdempotencyCache) (key : Text) (s : Seen) (now : ℕ)
    → (lookup key (record_seen c key s now).map ≡ some (s, now))
      × ((record_seen c key s now).ttl_secs ≡ c.ttl_secs)
      × ((record_seen c key s now).capacity ≡ c.capacity)
unfolding record_seen
lookup-record_seen c key s now = elim (Option-cases (lookup key c.map)) [
  | inl fresh ↦
      rw (fresh, record_seen)
        (
          ground (
            arith,
            lookup-insert key key (s, now) (evict c.capacity c.map c.order).0,
            same_refl key,
          ),
          refl,
          refl,
        )
  | inr (slot, old) ↦
      rw (old, record_seen)
        (ground (arith, lookup-modify key key (λ _. (s, now)) c.map, same_refl key), refl, refl)
]

pub get_hit :
    (c : IdempotencyCache) (key : Text) (s : Seen) (at now : ℕ)
    → lookup key c.map ≡ some (s, at)
    → expired c.ttl_secs now at ≡ false
    → get c key now ≡ (c, some s)
unfolding get
get_hit c key s at now hit live = rw (hit, get, live)

-- What was just recorded is returned within its lifetime, and the cache does not change.
pub get-record_seen :
    (c : IdempotencyCache) (key : Text) (s : Seen) (now later : ℕ)
    → expired c.ttl_secs later now ≡ false
    → get (record_seen c key s now) key later ≡ (record_seen c key s now, some s)
get-record_seen c key s now later live =
    let (hit, ttl, cap) = lookup-record_seen c key s now in
    get_hit (record_seen c key s now) key s now later hit (rw ttl live)

seen_hit :
    (s : TokenSet) (token at now : ℕ)
    → lookup token s.map ≡ some at
    → now - at ≤ s.ttl_secs
    → seen s token now ≡ (s, true)
unfolding seen
seen_hit s token at now hit live = rw (hit, seen) (ground arith)

lookup-record_token :
    (s : TokenSet) (token now : ℕ)
    → (lookup token (record_token s token now).map ≡ some now)
      × ((record_token s token now).ttl_secs ≡ s.ttl_secs)
unfolding record_token
lookup-record_token s token now = (
  ground (arith, lookup-insert token token now (evict s.capacity s.map s.order).0, same_refl token),
  refl,
)

seen_new :
    (s : TokenSet) (token now : ℕ)
    → (seen s token now).1 ≡ false
    → (lookup token (seen s token now).0.map ≡ some now)
      × ((seen s token now).0.ttl_secs ≡ s.ttl_secs)
unfolding seen
seen_new s token now new = ground (
  arith,
  lookup-record_token s token now,
  lookup-record_token (record s { map = remove token s.map }) token now,
)

-- A token that was new is recognised by the next call within its lifetime, which changes nothing.
pub seen-seen :
    (s : TokenSet) (token now later : ℕ)
    → (seen s token now).1 ≡ false
    → later - now ≤ s.ttl_secs
    → seen (seen s token now).0 token later ≡ ((seen s token now).0, true)
seen-seen s token now later new live =
    let (hit, ttl) = seen_new s token now new in
    seen_hit (seen s token now).0 token now later hit (rw ttl live)
