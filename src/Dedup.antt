-- ===== src/Dedup.antt =====
-- src/dedup.rs: the idempotency cache of the ingest path and the token set of the control loop.
-- A `HashMap` is read as a map in key order, which nothing observes; a `VecDeque` is a list with
-- its front first. Times and the capacity are plain numbers: they are compared and subtracted only.
pub mod Evict
pub mod Bounds
pub mod Recall
pub mod Fifo
pub mod Stale
use ce_pubsub.Prelude.{
  ℕ, Bool, true, false, not, ◌&&◌, ◌||◌, Option, none, some, List, [], ◌∷◌, ◌++◌, leb, ltb, ◌==◌,
  if◌then◌else◌, length, max,
}
use ce_pubsub.Prelude.Words.{saturating_sub}
use ce_pubsub.Prelude.Order.{Order, Text, ℕ_order, text_order}
use ce_pubsub.Prelude.Map.{Map, lookup, insert, remove, modify}
use ce_pubsub.Message.{Cursor}

-- What a key resolved to.
pub data Seen : Type 0 where
  cursor : Cursor → Seen
  handled : Seen

pub record IdempotencyCache : Type 0 where
  pub map : Map Text (Seen × ℕ)
  pub order : List Text
  pub capacity : ℕ
  pub ttl_secs : ℕ

unfoldable pub new_cache : ℕ → ℕ → IdempotencyCache
new_cache capacity ttl_secs = record {
  map = [];
  order = [];
  capacity = max capacity 1;
  ttl_secs = ttl_secs;
}

-- `ttl_secs != 0 && now.saturating_sub(at) > ttl_secs`
abbrev pub expired : ℕ → ℕ → ℕ → Bool
expired ttl_secs now at = not (ttl_secs == 0) && ltb ttl_secs (saturating_sub now at)

-- `IdempotencyCache::get`: the new cache, and what the key resolved to.
unfoldable pub get : IdempotencyCache → Text → ℕ → IdempotencyCache × Option Seen
get c key now = elim (lookup key c.map) [
  | none ↦ (c, none)
  | some (seen, at) ↦
      if expired c.ttl_secs now at
      then (record c { map = remove key c.map }, none)
      else (c, some seen)
]

-- `while map.len() >= capacity { pop the front of order and remove it, or break }`
unfoldable pub evict {ℓ κ} :
    {K : Type ℓ} {V : Type κ} ⦃o : Order K⦄ → ℕ → Map K V → List K → Map K V × List K
evict capacity m [] = (m, [])
evict capacity m (oldest ∷ rest) =
    if leb capacity (length m) then evict capacity (remove oldest m) rest else (m, oldest ∷ rest)

-- `IdempotencyCache::insert`
unfoldable pub record_seen : IdempotencyCache → Text → Seen → ℕ → IdempotencyCache
record_seen c key seen now = elim (lookup key c.map) [
  | some slot ↦ record c { map = modify key (λ _. (seen, now)) c.map }
  | none ↦
      let (m, order) = evict c.capacity c.map c.order in
      record c { map = insert key (seen, now) m; order = order ++ key ∷ [] }
]

pub record TokenSet : Type 0 where
  pub map : Map ℕ ℕ
  pub order : List ℕ
  pub capacity : ℕ
  pub ttl_secs : ℕ

unfoldable pub new_tokens : ℕ → ℕ → TokenSet
new_tokens capacity ttl_secs = record {
  map = [];
  order = [];
  capacity = max capacity 1;
  ttl_secs = ttl_secs;
}

-- The part of `seen` behind its early return.
unfoldable pub record_token : TokenSet → ℕ → ℕ → TokenSet
record_token s token now =
    let (m, order) = evict s.capacity s.map s.order in
    record s { map = insert token now m; order = order ++ token ∷ [] }

-- `TokenSet::seen`: the new set, and whether the token was there already.
unfoldable pub seen : TokenSet → ℕ → ℕ → TokenSet × Bool
unfolding record_token
seen s token now = elim (lookup token s.map) [
  | none ↦ (record_token s token now, false)
  | some at ↦
      if s.ttl_secs == 0 || leb (saturating_sub now at) s.ttl_secs
      then (s, true)
      else (record_token (record s { map = remove token s.map }) token now, false)
]
