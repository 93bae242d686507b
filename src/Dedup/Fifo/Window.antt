-- ===== src/Dedup/Fifo/Window.antt =====
-- The retention window of the idempotency cache.
use ce_pubsub.Prelude.{
  ℕ, suc, ◌+◌, ◌≤◌, ◌<◌, ◌≡◌, refl, sym, ap, subst, inl, inr, true, false, none, some, List, [],
  ◌∷◌, ◌++◌, arith, length, Option-cases, length-append, ◌∙◌,
}
use mathlib.Core.List.{append_assoc}
use ce_pubsub.Prelude.Order.{Text, same, same_refl, same_eq, text_order}
use ce_pubsub.Prelude.Map.{lookup, remove, lookup-insert, lookup-modify, lookup-remove}
use ce_pubsub.Dedup.{Seen, IdempotencyCache, record_seen}
use ce_pubsub.Dedup.Evict.{member}
use ce_pubsub.Dedup.{expired, get}
use ce_pubsub.Dedup.Recall.{lookup-record_seen, get_hit}
use ce_pubsub.Dedup.Fifo.{Distinct, IsExact, Joins, record_seen-Joins, record_seen-IsExact}

-- Keys with their outcomes and times, recorded one after the other.
pub record_each : IdempotencyCache → List (Text × Seen × ℕ) → IdempotencyCache
record_each c [] = c
record_each c ((key, s, now) ∷ entries) = record_each (record_seen c key s now) entries

-- How often the front of the queue has to be popped before `key` is at the front.
abbrev Waits : ℕ → Text → List Text → Type 0
Waits n key order =
    (older : List Text) × (newer : List Text) × (order ≡ older ++ key ∷ newer) × (length older ≡ n)

member-middle : (k : Text) (xs ys : List Text) → member k (xs ++ k ∷ ys) ≡ true
unfolding member
member-middle k [] ys = ground (arith, same_refl k)
member-middle k (x ∷ xs) ys = ground (arith, member-middle k xs ys)

-- What one more entry may cost a key that is remembered.
abbrev Kept : ℕ → Text → Seen × ℕ → IdempotencyCache → IdempotencyCache → Type 0
Kept n key slot c c' =
    (n' : ℕ) × (lookup key c'.map ≡ some slot)
    × Waits n' key c'.order
    × (length c'.order + n ≤ length c.order + n' + 1)
    × (c'.capacity ≡ c.capacity)

Joins-Kept :
    (c c' : IdempotencyCache) (key k : Text) (slot v : Seen × ℕ) (older newer : List Text)
    → IsExact c
    → lookup key c.map ≡ some slot
    → same k key ≡ false
    → c.order ≡ older ++ key ∷ newer
    → length c.order < c.capacity + length older
    → Joins c k v c'
    → Kept (length older) key slot c c'
Joins-Kept c c' key k slot v older newer x hit other e room (inl (_, q)) = rw q (
  length older,
  ground (arith, lookup-insert k key v c.map),
  (older, newer ++ k ∷ [], rw e (append_assoc older (key ∷ newer) (k ∷ [])), refl),
  omega (arith, length-append c.order (k ∷ [])),
  refl,
)
Joins-Kept c c' key k slot v [] newer x hit other e room (inr (oldest, rest, p, full, q)) =
    absurd (omega arith)
Joins-Kept c c' key k slot v (y ∷ older) newer x hit other e room (inr (oldest, rest, p, full, q)) =
    let both : oldest ∷ rest ≡ y ∷ (older ++ key ∷ newer) = sym p ∙ e in
    let tail : rest ≡ older ++ key ∷ newer = cc in
    let d : Distinct (oldest ∷ rest) = subst Distinct p x.distinct in
    let inside : member key rest ≡ true = rw tail (member-middle key older newer) in
    rw q (
      length older,
      ground (
        arith,
        lookup-insert k key v (remove oldest c.map),
        lookup-remove oldest key c.map,
        same_eq oldest key,
        d.0,
      ),
      (older, newer ++ k ∷ [], rw tail (append_assoc older (key ∷ newer) (k ∷ [])), refl),
      omega (arith, length-append rest (k ∷ []), ap length p),
      refl,
    )

record_seen-Kept :
    (c : IdempotencyCache) (key k : Text) (slot : Seen × ℕ) (s : Seen) (now : ℕ)
    (older newer : List Text)
    → IsExact c
    → lookup key c.map ≡ some slot
    → same k key ≡ false
    → c.order ≡ older ++ key ∷ newer
    → length c.order < c.capacity + length older
    → Kept (length older) key slot c (record_seen c k s now)
record_seen-Kept c key k slot s now older newer x hit other e room =
    elim (Option-cases (lookup k c.map)) [
      | inl fresh ↦
          Joins-Kept c (record_seen c k s now) key k slot (s, now) older newer x hit other e room
            (record_seen-Joins c k s now c.order refl x fresh)
      | inr (v, old) ↦
          unfold record_seen in
          rw (old, record_seen)
            (
              length older,
              ground (arith, lookup-modify k key (λ _. (s, now)) c.map),
              (older, newer, e, refl),
              omega arith,
              refl,
            )
    ]

-- The entries concern other keys.
abbrev pub Others : Text → List (Text × Seen × ℕ) → Type 0
Others key [] = Unit {0}
Others key ((k, s, now) ∷ entries) = (same k key ≡ false) × Others key entries

record_each-keeps :
    (c : IdempotencyCache) (key : Text) (slot : Seen × ℕ) (older newer : List Text)
    (entries : List (Text × Seen × ℕ))
    → IsExact c
    → lookup key c.map ≡ some slot
    → c.order ≡ older ++ key ∷ newer
    → length entries + length c.order ≤ c.capacity + length older
    → Others key entries
    → lookup key (record_each c entries).map ≡ some slot
unfolding record_each
record_each-keeps c key slot older newer [] x hit e room others = hit
record_each-keeps c key slot older newer ((k, s, now) ∷ entries) x hit e room others =
    let (n, hit', (older', newer', e', len), cost, cap) =
      record_seen-Kept c key k slot s now older newer x hit others.0 e (omega arith) in
    record_each-keeps (record_seen c k s now) key slot older' newer' entries
      (record_seen-IsExact c k s now x) hit' e' (omega arith) others.1

ttl-record_each :
    (c : IdempotencyCache) (entries : List (Text × Seen × ℕ))
    → (record_each c entries).ttl_secs ≡ c.ttl_secs
unfolding record_each
ttl-record_each c [] = refl
ttl-record_each c ((k, s, now) ∷ entries) =
    ttl-record_each (record_seen c k s now) entries ∙ (lookup-record_seen c k s now).1

-- A new key stands at the back.
Joins-back :
    (c c' : IdempotencyCache) (key : Text) (v : Seen × ℕ)
    → Joins c key v c'
    → (older : List Text) × (c'.order ≡ older ++ key ∷ []) × (c'.capacity ≡ c.capacity)
Joins-back c c' key v (inl (room, e)) = (c.order, ground arith, ground arith)
Joins-back c c' key v (inr (oldest, rest, p, full, e)) = (rest, ground arith, ground arith)

-- In a cache whose queue is exact, a key that is recorded for the first time outlives fewer than
-- `capacity` entries of other keys: a lookup within its lifetime returns what was recorded.
pub get-record_each :
    (c : IdempotencyCache) (key : Text) (s : Seen) (now later : ℕ)
    (entries : List (Text × Seen × ℕ))
    → IsExact c
    → lookup key c.map ≡ none
    → length entries < c.capacity
    → Others key entries
    → expired c.ttl_secs later now ≡ false
    → (get (record_each (record_seen c key s now) entries) key later).1 ≡ some s
get-record_each c key s now later entries x fresh few others live =
    let c' = record_seen c key s now in
    let (hit, ttl, cap) = lookup-record_seen c key s now in
    let (older, back, _) =
      Joins-back c c' key (s, now) (record_seen-Joins c key s now c.order refl x fresh) in
    let len : length c'.order ≡ suc (length older) =
      ap length back ∙ length-append older (key ∷ []) ∙ omega arith in
    let kept =
      record_each-keeps c' key (s, now) older [] entries (record_seen-IsExact c key s now x) hit
        back (omega arith) others in
    let same_ttl = ttl-record_each c' entries ∙ ttl in
    rw (get_hit (record_each c' entries) key s now later kept (rw same_ttl live))
