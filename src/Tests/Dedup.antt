-- ===== src/Tests/Dedup.antt =====
-- The caches with room for two keys.
use ce_pubsub.Prelude.{subst, ◌≡◌, refl, true, none, some, [], ◌∷◌, arith, length, ◌+◌}
use ce_pubsub.Prelude.Order.{Text, text_cmp, codes, text_order, ℕ_order}
use ce_pubsub.Prelude.Map.{lookup, insert}
use ce_pubsub.Dedup.{
  cursor, handled, IdempotencyCache, TokenSet, new_cache, evict, get, record_seen, seen,
  record_token,
}
use ce_pubsub.Dedup.Evict.{member}
use ce_pubsub.Dedup.Bounds.{IsBoundedSet, seen-IsBoundedSet}
use ce_pubsub.Dedup.Fifo.{IsExact, new_cache-IsExact, record_seen-IsExact}
use ce_pubsub.Dedup.Fifo.Window.{record_each, get-record_each}
use ce_pubsub.Dedup.Stale.{renew, renewed_is_evicted, renew_each, order-renew_each}

abbrev a : Text
a = codes "a"

abbrev b : Text
b = codes "b"

abbrev c : Text
c = codes "c"

-- Capacity 2, lifetime 10.
abbrev small : IdempotencyCache
small = record { map = []; order = []; capacity = 2; ttl_secs = 10 }

small-IsExact : IsExact small
unfolding new_cache
small-IsExact = new_cache-IsExact 2 10

abbrev full : IdempotencyCache
full = record {
  map = (a, (cursor 1, 5)) ∷ (b, (cursor 2, 6)) ∷ [];
  order = a ∷ b ∷ [];
  capacity = 2;
  ttl_secs = 10;
}

full_eq : record_seen (record_seen small a (cursor 1) 5) b (cursor 2) 6 ≡ full
unfolding record_seen evict lookup insert text_cmp
full_eq = refl

full-IsExact : IsExact full
full-IsExact =
    subst (λ k. IsExact k) full_eq
      (record_seen-IsExact (record_seen small a (cursor 1) 5) b (cursor 2) 6
        (record_seen-IsExact small a (cursor 1) 5 small-IsExact))

-- The set after token 7.
abbrev tokens : TokenSet
tokens = record { map = (7, 100) ∷ []; order = 7 ∷ []; capacity = 1; ttl_secs = 10 }

no_tokens-IsBoundedSet : IsBoundedSet (record { map = []; order = []; capacity = 1; ttl_secs = 10 })
unfolding lookup
no_tokens-IsBoundedSet = record {
  positive = omega arith;
  bounded = omega arith;
  tracked = λ k h. cc;
}

seen_7 : (seen (record { map = []; order = []; capacity = 1; ttl_secs = 10 }) 7 100).0 ≡ tokens
unfolding seen record_token evict lookup insert
seen_7 = refl

tokens-IsBoundedSet : IsBoundedSet tokens
tokens-IsBoundedSet =
    subst (λ k. IsBoundedSet k) seen_7
      (seen-IsBoundedSet (record { map = []; order = []; capacity = 1; ttl_secs = 10 }) 7 100
        no_tokens-IsBoundedSet)

get-record_each_example :
    (get (record_each (record_seen small a (cursor 1) 5) ((b, handled, 6) ∷ [])) a 15).1
    ≡ some (cursor 1)
unfolding lookup text_cmp
get-record_each_example =
    get-record_each small a (cursor 1) 5 15 ((b, handled, 6) ∷ []) small-IsExact refl (omega arith)
      (refl, tt) refl

renewed_is_evicted_example :
    let k = record_seen (renew full a (cursor 3) 50) c (cursor 4) 51 in
    (lookup a k.map ≡ none)
    × ((q : Text) → member q (b ∷ []) ≡ true → lookup q k.map ≡ lookup q full.map)
unfolding lookup text_cmp
renewed_is_evicted_example =
    renewed_is_evicted full a c (b ∷ []) (cursor 1) (cursor 3) (cursor 4) 5 50 51 full-IsExact refl
      refl refl refl refl

order-renew_each_example :
    (length (renew_each 3 full a (cursor 1) 5).order ≡ 3 + 2)
    × (length (renew_each 3 full a (cursor 1) 5).map ≡ 2)
unfolding lookup text_cmp
order-renew_each_example =
    order-renew_each 3 full a (cursor 1) 5 full-IsExact.sorted (omega arith) refl (omega arith)
