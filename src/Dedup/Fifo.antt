-- ===== src/Dedup/Fifo.antt =====
-- How long a key is remembered while no entry has been dropped for its age.
pub mod Window
use ce_pubsub.Prelude.{
  ℕ, suc, ◌+◌, ◌≤◌, ◌<◌, ◌≡◌, refl, sym, ap, subst, inl, inr, ◌⊎◌, Bool, true, false, ◌||◌, Option,
  none, some, List, [], ◌∷◌, ◌++◌, arith, leb, dec_lt, if◌then◌else◌, length, is_some, All,
  Option-cases, Bool-cases, length-append, ◌∙◌,
}
use mathlib.Core.List.{append_assoc}
use ce_pubsub.Prelude.Order.{Text, same, same_refl, same_eq, text_order}
use ce_pubsub.Prelude.Map.{
  lookup, has, insert, remove, modify, lookup-insert, lookup-modify, lookup-remove, length-insert,
  length-modify,
}
use ce_pubsub.Prelude.Map.Sorted.{
  IsSorted, insert-IsSorted, remove-IsSorted, modify-IsSorted, length-remove,
}
use ce_pubsub.Dedup.{Seen, IdempotencyCache, new_cache, record_seen}
use ce_pubsub.Dedup.Evict.{member, member-snoc, evict_idle, evict_full}

-- No key waits twice.
abbrev pub Distinct : List Text → Type 0
Distinct [] = Unit {0}
Distinct (k ∷ ks) = (member k ks ≡ false) × Distinct ks

Distinct-snoc :
    (k : Text) (ks : List Text) → member k ks ≡ false → Distinct ks → Distinct (ks ++ k ∷ [])
unfolding member
Distinct-snoc k [] h d = (refl, tt)
Distinct-snoc k (x ∷ ks) h d = (
  ground (arith, member-snoc x k ks, same_eq k x, same_refl k, d.0),
  Distinct-snoc k ks (ground arith) d.1,
)

-- The queue lists the keys of the map, each once: what holds until an entry expires.
pub record IsExact (c : IdempotencyCache) : Type 0 where
  pub positive : 0 < c.capacity
  pub sorted : IsSorted c.map
  pub distinct : Distinct c.order
  pub present : (k : Text) → member k c.order ≡ true → has k c.map ≡ true
  pub count : length c.map ≡ length c.order
  pub fits : length c.order ≤ c.capacity

-- The two ways in which a new key gets in.
abbrev pub Joins : IdempotencyCache → Text → Seen × ℕ → IdempotencyCache → Type 0
Joins c key v c' =
    ((length c.order < c.capacity)
      × (c' ≡ record c { map = insert key v c.map; order = c.order ++ key ∷ [] }))
    ⊎ ((oldest : Text) × (rest : List Text) × (c.order ≡ oldest ∷ rest)
        × (c.capacity ≤ length c.order)
        × (c' ≡ record c { map = insert key v (remove oldest c.map); order = rest ++ key ∷ [] }))

pub joins_room :
    (c : IdempotencyCache) (key : Text) (s : Seen) (now : ℕ)
    → lookup key c.map ≡ none
    → length c.map < c.capacity
    → record_seen c key s now
      ≡ record c { map = insert key (s, now) c.map; order = c.order ++ key ∷ [] }
unfolding record_seen
joins_room c key s now fresh room =
    rw (fresh, record_seen, evict_idle c.capacity c.map c.order room)

pub joins_full :
    (c : IdempotencyCache) (key oldest : Text) (rest : List Text) (s : Seen) (now : ℕ)
    → lookup key c.map ≡ none
    → c.order ≡ oldest ∷ rest
    → length c.map ≡ c.capacity
    → has oldest c.map ≡ true
    → record_seen c key s now
      ≡ record c { map = insert key (s, now) (remove oldest c.map); order = rest ++ key ∷ [] }
unfolding record_seen
joins_full c key oldest rest s now fresh e full there =
    ground (arith, fresh, evict_full c.capacity c.map oldest rest full there)

pub record_seen-Joins :
    (c : IdempotencyCache) (key : Text) (s : Seen) (now : ℕ) (order : List Text)
    → c.order ≡ order
    → IsExact c
    → lookup key c.map ≡ none
    → Joins c key (s, now) (record_seen c key s now)
unfolding member
record_seen-Joins c key s now [] e x fresh =
    let n = x.count in
    let p = x.positive in
    let empty : length c.order ≡ 0 = ap length e in
    inl (omega arith, joins_room c key s now fresh (omega arith))
record_seen-Joins c key s now (oldest ∷ rest) e x fresh =
    elim (dec_lt (length c.order) c.capacity) [
      | yes room ↦ let n = x.count in inl (room, joins_room c key s now fresh (omega arith))
      | no full ↦
          let n = x.count in
          let f = x.fits in
          let there : has oldest c.map ≡ true =
            x.present oldest (rw (e, member) (ground (arith, same_refl oldest))) in
          inr (
            oldest,
            rest,
            e,
            omega arith,
            joins_full c key oldest rest s now fresh e (omega arith) there,
          )
    ]

absent :
    (c : IdempotencyCache) (key : Text)
    → IsExact c
    → lookup key c.map ≡ none
    → member key c.order ≡ false
absent c key x fresh = elim (Bool-cases (member key c.order)) [
  | inl there ↦ absurd (ground (arith, x.present key there))
  | inr e ↦ e
]

add_back-IsExact :
    (c : IdempotencyCache) (key : Text) (v : Seen × ℕ)
    → IsExact c
    → lookup key c.map ≡ none
    → length c.order < c.capacity
    → IsExact (record c { map = insert key v c.map; order = c.order ++ key ∷ [] })
add_back-IsExact c key v x fresh room =
    let n = x.count in
    record {
      positive = x.positive;
      sorted = insert-IsSorted key v c.map x.sorted;
      distinct = Distinct-snoc key c.order (absent c key x fresh) x.distinct;
      present = λ k h.
          ground (arith, x.present k, member-snoc k key c.order, lookup-insert key k v c.map);
      count = omega (arith, length-insert key v c.map fresh, length-append c.order (key ∷ []));
      fits = omega (arith, length-append c.order (key ∷ []));
    }

drop_front-IsExact :
    (c : IdempotencyCache) (oldest : Text) (rest : List Text)
    → c.order ≡ oldest ∷ rest
    → IsExact c
    → IsExact (record c { map = remove oldest c.map; order = rest }) × (length rest < c.capacity)
unfolding member
drop_front-IsExact c oldest rest e x =
    let n = x.count in
    let f = x.fits in
    let len : length c.order ≡ suc (length rest) = ap length e in
    let d : Distinct (oldest ∷ rest) = subst Distinct e x.distinct in
    let there = λ (k : Text). λ (h : member k (oldest ∷ rest) ≡ true). x.present k (rw e h) in
    let front : has oldest c.map ≡ true = there oldest (ground (arith, same_refl oldest)) in
    (
      record {
        positive = x.positive;
        sorted = remove-IsSorted oldest c.map x.sorted;
        distinct = d.1;
        present =
            λ k h. ground (arith, there k, d.0, same_eq oldest k, lookup-remove oldest k c.map);
        count = omega (arith, length-remove oldest c.map x.sorted front);
        fits = omega arith;
      },
      omega arith,
    )

Joins-IsExact :
    (c c' : IdempotencyCache) (key : Text) (v : Seen × ℕ)
    → IsExact c
    → lookup key c.map ≡ none
    → Joins c key v c'
    → IsExact c'
Joins-IsExact c c' key v x fresh (inl (room, e)) = rw e (add_back-IsExact c key v x fresh room)
Joins-IsExact c c' key v x fresh (inr (oldest, rest, q, full, e)) =
    let (dropped, room) = drop_front-IsExact c oldest rest q x in
    rw e (
      add_back-IsExact (record c { map = remove oldest c.map; order = rest }) key v dropped
        (ground (arith, lookup-remove oldest key c.map)) room)

refresh-IsExact :
    (c : IdempotencyCache) (key : Text) (f : Seen × ℕ → Seen × ℕ)
    → IsExact c
    → IsExact (record c { map = modify key f c.map })
refresh-IsExact c key f x = record {
  positive = x.positive;
  sorted = modify-IsSorted key f c.map x.sorted;
  distinct = x.distinct;
  present = λ k h. ground (arith, x.present k h, lookup-modify key k f c.map);
  count = let n = x.count in omega (arith, length-modify key f c.map);
  fits = x.fits;
}

pub record_seen-IsExact :
    (c : IdempotencyCache) (key : Text) (s : Seen) (now : ℕ)
    → IsExact c
    → IsExact (record_seen c key s now)
record_seen-IsExact c key s now x = elim (Option-cases (lookup key c.map)) [
  | inl fresh ↦
      Joins-IsExact c (record_seen c key s now) key (s, now) x fresh
        (record_seen-Joins c key s now c.order refl x fresh)
  | inr (slot, old) ↦
      unfold record_seen in rw (old, record_seen) (refresh-IsExact c key (λ _. (s, now)) x)
]

pub new_cache-IsExact : (capacity ttl_secs : ℕ) → IsExact (new_cache capacity ttl_secs)
unfolding new_cache member
new_cache-IsExact capacity ttl_secs = record {
  positive = omega arith;
  sorted = tt;
  distinct = tt;
  present = λ k h. cc;
  count = refl;
  fits = omega arith;
}
