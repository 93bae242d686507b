-- ===== src/Dedup/Stale.antt =====
-- Keys left in the queue by `get`, which drops an expired entry from the map only.
use ce_pubsub.Prelude.{
  ℕ, zero, suc, ◌+◌, ◌≤◌, ◌<◌, ◌≡◌, refl, sym, ap, subst, ◌∙◌, true, none, some, List, [], ◌∷◌,
  ◌++◌, arith, length, length-append,
}
use ce_pubsub.Prelude.Order.{Text, same_refl, same_eq, text_order}
use ce_pubsub.Prelude.Map.{lookup, has, insert, remove, lookup-insert, lookup-remove, length-insert}
use ce_pubsub.Prelude.Map.Sorted.{IsSorted, insert-IsSorted, remove-IsSorted, length-remove}
use ce_pubsub.Dedup.{Seen, IdempotencyCache, expired, get, record_seen}
use ce_pubsub.Dedup.Evict.{member}
use ce_pubsub.Dedup.Fifo.{Distinct, IsExact, joins_room, joins_full}

get_stale :
    (c : IdempotencyCache) (key : Text) (s : Seen) (at now : ℕ)
    → lookup key c.map ≡ some (s, at)
    → expired c.ttl_secs now at ≡ true
    → get c key now ≡ (record c { map = remove key c.map }, none)
unfolding get
get_stale c key s at now hit old = rw (hit, get, old)

-- `handle_ingest` asks for a key, and records it if there is no answer.
pub renew : IdempotencyCache → Text → Seen → ℕ → IdempotencyCache
renew c key s now = record_seen (get c key now).0 key s now

-- The cache after the renewal of an expired key: the key waits in the queue twice.
renew_stale :
    (c : IdempotencyCache) (key : Text) (s s' : Seen) (at now : ℕ)
    → IsSorted c.map
    → length c.map ≤ c.capacity
    → lookup key c.map ≡ some (s, at)
    → expired c.ttl_secs now at ≡ true
    → (renew c key s' now
        ≡ record c { map = insert key (s', now) (remove key c.map); order = c.order ++ key ∷ [] })
      × (length (renew c key s' now).map ≡ length c.map)
unfolding renew
renew_stale c key s s' at now sorted fits hit old =
    let gone : lookup key (remove key c.map) ≡ none =
      ground (arith, lookup-remove key key c.map, same_refl key) in
    let fewer = length-remove key c.map sorted (ground arith) in
    let e = joins_room (record c { map = remove key c.map }) key s' now gone (omega arith) in
    rw (get_stale c key s at now hit old, e)
      (refl, length-insert key (s', now) (remove key c.map) gone ∙ fewer)

-- In a full cache whose queue is exact and whose oldest key has expired, once that key is looked
-- up and recorded again, the next new key evicts it, though it is the newest entry, and keeps
-- every older one.
pub renewed_is_evicted :
    (c : IdempotencyCache) (key other : Text) (rest : List Text) (s s' s'' : Seen)
    (at now later : ℕ)
    → IsExact c
    → c.order ≡ key ∷ rest
    → length c.order ≡ c.capacity
    → lookup key c.map ≡ some (s, at)
    → expired c.ttl_secs now at ≡ true
    → lookup other c.map ≡ none
    → let c' = record_seen (renew c key s' now) other s'' later in
      (lookup key c'.map ≡ none)
      × ((q : Text) → member q rest ≡ true → lookup q c'.map ≡ lookup q c.map)
unfolding member
renewed_is_evicted c key other rest s s' s'' at now later x e full hit old fresh =
    let n = x.count in
    let d : Distinct (key ∷ rest) = subst Distinct e x.distinct in
    let older = λ (q : Text).
      λ (inside : member q rest ≡ true). x.present q (rw e (ground (arith, inside))) in
    let (step, len) = renew_stale c key s s' at now x.sorted (omega arith) hit old in
    let m = insert key (s', now) (remove key c.map) in
    let c2 : IdempotencyCache = record c { map = m; order = c.order ++ key ∷ [] } in
    let there : has key m ≡ true =
      ground (arith, lookup-insert key key (s', now) (remove key c.map), same_refl key) in
    let new : lookup other m ≡ none = ground (
      arith,
      lookup-insert key other (s', now) (remove key c.map),
      lookup-remove key other c.map,
      same_eq key other,
    ) in
    let size : length m ≡ c.capacity =
      sym (ap (λ (d : IdempotencyCache). length d.map) step) ∙ len ∙ n ∙ full in
    let e2 =
      joins_full c2 other key (rest ++ key ∷ []) s'' later new (ap (λ o. o ++ key ∷ []) e) size
        there in
    rw (step, e2)
      (
        ground (
          arith,
          lookup-insert other key (s'', later) (remove key m),
          lookup-remove key key m,
          same_refl key,
          same_eq other key,
        ),
        λ q inside. ground (
          arith,
          lookup-insert other q (s'', later) (remove key m),
          lookup-remove key q m,
          lookup-insert key q (s', now) (remove key c.map),
          lookup-remove key q c.map,
          same_eq other q,
          same_eq key q,
          older q inside,
          d.0,
          inside,
        ),
      )

-- `n` renewals of one key, each just after the key has expired.
pub renew_each : ℕ → IdempotencyCache → Text → Seen → ℕ → IdempotencyCache
renew_each zero c key s at = c
renew_each (suc n) c key s at =
    renew_each n (renew c key s (at + c.ttl_secs + 1)) key s (at + c.ttl_secs + 1)

-- Each time that a key of a cache within its capacity expires, is looked up and recorded again,
-- the queue gets longer by one, while the map keeps its size.
pub order-renew_each :
    (n : ℕ) (c : IdempotencyCache) (key : Text) (s : Seen) (at : ℕ)
    → IsSorted c.map
    → length c.map ≤ c.capacity
    → lookup key c.map ≡ some (s, at)
    → 0 < c.ttl_secs
    → (length (renew_each n c key s at).order ≡ n + length c.order)
      × (length (renew_each n c key s at).map ≡ length c.map)
unfolding renew_each
order-renew_each zero c key s at sorted fits hit ttl = (omega arith, refl)
order-renew_each (suc n) c key s at sorted fits hit ttl =
    let later = at + c.ttl_secs + 1 in
    let (step, len) = renew_stale c key s s at later sorted fits hit (ground arith) in
    let m = insert key (s, later) (remove key c.map) in
    let size : length m ≡ length c.map =
      sym (ap (λ (d : IdempotencyCache). length d.map) step) ∙ len in
    let (grown, same_size) =
      order-renew_each n (record c { map = m; order = c.order ++ key ∷ [] }) key s later
        (insert-IsSorted key (s, later) (remove key c.map) (remove-IsSorted key c.map sorted))
        (omega arith)
        (ground (arith, lookup-insert key key (s, later) (remove key c.map), same_refl key)) ttl in
    subst
      (λ d.
        (length (renew_each n d key s later).order ≡ suc n + length c.order)
        × (length (renew_each n d key s later).map ≡ length c.map))
      (sym step) (omega (arith, grown, length-append c.order (key ∷ [])), same_size ∙ size)
