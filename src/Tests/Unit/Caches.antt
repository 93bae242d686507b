-- ===== src/Tests/Unit/Caches.antt =====
-- The tests of src/dedup.rs.
use ce_pubsub.Prelude.{
  ℕ, ◌-◌, ◌≡◌, refl, Bool, true, false, not, ◌&&◌, ◌==◌, Option, none, some, List, [], ◌∷◌, length,
}
use ce_pubsub.Prelude.Words.{u64_mod}
use ce_pubsub.Prelude.Order.{Text, codes, text_order}
use ce_pubsub.Message.{Cursor}
use ce_pubsub.Dedup.{
  Seen, IdempotencyCache, cursor, handled, new_cache, get, record_seen, TokenSet, new_tokens, seen,
}
use ce_pubsub.Tests.Unit.{is_none}

abbrev token_set_dedups_within_ttl : Bool
token_set_dedups_within_ttl =
    let (s1, first) = seen (new_tokens 8 100) 1 10 in
    let (s2, repeat) = seen s1 1 20 in
    let (s3, after_ttl) = seen s2 1 200 in not first && (repeat && not after_ttl)

token_set_dedups_within_ttl_passes : token_set_dedups_within_ttl ≡ true
unfolding seen ce_pubsub.Prelude.Map.lookup new_tokens ce_pubsub.Prelude.Map.insert
    ce_pubsub.Dedup.evict
token_set_dedups_within_ttl_passes = refl

abbrev token_set_evicts_oldest_at_capacity : Bool
token_set_evicts_oldest_at_capacity =
    let s1 = (seen (new_tokens 2 0) 1 0).0 in
    let s2 = (seen s1 2 0).0 in
    let s3 = (seen s2 3 0).0 in
    let (s4, evicted) = seen s3 1 0 in let (s5, recent) = seen s4 3 0 in not evicted && recent

token_set_evicts_oldest_at_capacity_passes : token_set_evicts_oldest_at_capacity ≡ true
unfolding seen ce_pubsub.Prelude.Map.lookup new_tokens ce_pubsub.Prelude.Map.insert
    ce_pubsub.Dedup.evict ce_pubsub.Prelude.Map.remove
token_set_evicts_oldest_at_capacity_passes = refl

-- `assert_eq!(c.get(key, now), Some(Seen::Cursor(n)))`
abbrev is_cursor : Option Seen → Cursor → Bool
is_cursor none n = false
is_cursor (some (cursor c)) n = c == n
is_cursor (some handled) n = false

abbrev is_handled : Option Seen → Bool
is_handled none = false
is_handled (some (cursor c)) = false
is_handled (some handled) = true

abbrev insert_and_get : Bool
insert_and_get =
    let (c1, before) = get (new_cache 4 100) (codes "a") 0 in
    let c2 = record_seen c1 (codes "a") (cursor 7) 0 in
    let (c3, a) = get c2 (codes "a") 0 in
    let c4 = record_seen c3 (codes "b") handled 0 in
    let (c5, b) = get c4 (codes "b") 0 in is_none before && (is_cursor a 7 && is_handled b)

insert_and_get_passes : insert_and_get ≡ true
unfolding get ce_pubsub.Prelude.Map.lookup new_cache record_seen ce_pubsub.Prelude.Map.insert
    ce_pubsub.Dedup.evict ce_pubsub.Prelude.Order.text_cmp
insert_and_get_passes = refl

abbrev fifo_eviction_keeps_recent_drops_oldest : Bool
fifo_eviction_keeps_recent_drops_oldest =
    let c1 = record_seen (new_cache 3 0) (codes "a") (cursor 1) 0 in
    let c2 = record_seen c1 (codes "b") (cursor 1) 0 in
    let c3 = record_seen c2 (codes "c") (cursor 1) 0 in
    let c4 = record_seen c3 (codes "d") (cursor 1) 0 in
    let (c5, a) = get c4 (codes "a") 0 in
    let (c6, b) = get c5 (codes "b") 0 in
    let (c7, c) = get c6 (codes "c") 0 in
    let (c8, d) = get c7 (codes "d") 0 in
    length c3.map == 3
    && (length c4.map == 3
        && (is_none a && (not (is_none b) && (not (is_none c) && not (is_none d)))))

fifo_eviction_keeps_recent_drops_oldest_passes : fifo_eviction_keeps_recent_drops_oldest ≡ true
unfolding record_seen ce_pubsub.Prelude.Map.lookup new_cache ce_pubsub.Prelude.Map.insert
    ce_pubsub.Dedup.evict ce_pubsub.Prelude.Order.text_cmp ce_pubsub.Prelude.Map.remove get
fifo_eviction_keeps_recent_drops_oldest_passes = refl

abbrev retry_within_window_is_deduped_not_lost : Bool
retry_within_window_is_deduped_not_lost =
    let c1 = record_seen (new_cache 2 1000) (codes "recent") (cursor 42) 10 in
    let c2 = record_seen c1 (codes "filler1") (cursor 1) 11 in
    is_cursor (get c2 (codes "recent") 12).1 42

retry_within_window_is_deduped_not_lost_passes : retry_within_window_is_deduped_not_lost ≡ true
unfolding get ce_pubsub.Prelude.Map.lookup record_seen new_cache ce_pubsub.Prelude.Map.insert
    ce_pubsub.Dedup.evict ce_pubsub.Prelude.Order.text_cmp
retry_within_window_is_deduped_not_lost_passes = refl

abbrev ttl_expiry_drops_stale : Bool
ttl_expiry_drops_stale =
    let c1 = record_seen (new_cache 10 5) (codes "a") (cursor 1) 100 in
    let (c2, within) = get c1 (codes "a") 104 in
    is_cursor within 1 && is_none (get c2 (codes "a") 200).1

ttl_expiry_drops_stale_passes : ttl_expiry_drops_stale ≡ true
unfolding get ce_pubsub.Prelude.Map.lookup record_seen new_cache ce_pubsub.Prelude.Map.insert
    ce_pubsub.Dedup.evict ce_pubsub.Prelude.Order.text_cmp
ttl_expiry_drops_stale_passes = refl

abbrev reinsert_updates_in_place : Bool
reinsert_updates_in_place =
    let c1 = record_seen (new_cache 2 0) (codes "a") (cursor 1) 0 in
    let c2 = record_seen c1 (codes "a") (cursor 2) 0 in
    let (c3, a) = get c2 (codes "a") 0 in is_cursor a 2 && length c3.map == 1

reinsert_updates_in_place_passes : reinsert_updates_in_place ≡ true
unfolding get ce_pubsub.Prelude.Map.lookup record_seen new_cache ce_pubsub.Prelude.Map.insert
    ce_pubsub.Dedup.evict ce_pubsub.Prelude.Order.text_cmp ce_pubsub.Prelude.Map.modify
reinsert_updates_in_place_passes = refl

abbrev zero_ttl_never_expires : Bool
zero_ttl_never_expires =
    let c1 = record_seen (new_cache 10 0) (codes "a") (cursor 1) 0 in
    is_cursor (get c1 (codes "a") (u64_mod - 1)).1 1

zero_ttl_never_expires_passes : zero_ttl_never_expires ≡ true
unfolding get ce_pubsub.Prelude.Map.lookup record_seen new_cache ce_pubsub.Prelude.Map.insert
    ce_pubsub.Dedup.evict ce_pubsub.Prelude.Order.text_cmp
zero_ttl_never_expires_passes = refl
