-- ===== src/Subscription/Handled.antt =====
-- The abstract view of a subscription: which cursors are done with, and what each operation adds.
use ce_pubsub.Prelude.{
  ℕ, zero, suc, ◌+◌, ◌<◌, ◌≡◌, refl, ◌∙◌, inl, inr, Bool, true, false, ◌||◌, List, [], ◌∷◌, arith,
  leb, ltb, ◌==◌, length, member, Bool-cases,
}
use ce_pubsub.Prelude.Words.{u64_mod, add_u64, add_u64-eq}
use ce_pubsub.Prelude.Order.{ℕ_order}
use ce_pubsub.Prelude.Map.{
  has, insert, remove, lookup-insert, lookup-remove, lookup-retain, length-remove-lt,
  length-insert-le,
}
use ce_pubsub.Message.{Cursor}
use ce_pubsub.Subscription.{
  SubscriptionState, fold_in, advance, advance_acked, mark_dead, grant_lease, mark_all_dead,
  grant_leases, raise_floor, commit_lease, ack_cursor, nack_cursor,
}

-- Acknowledged up to the floor, acknowledged above it, or dead.
unfoldable pub handled : SubscriptionState → Cursor → Bool
handled s c = leb c s.acked || has c s.acked_set || has c s.dead

fold_in-handled :
    (s : SubscriptionState) (c : Cursor)
    → (has (suc s.acked) s.acked_set || has (suc s.acked) s.dead) ≡ true
    → handled (fold_in (suc s.acked) s) c ≡ handled s c
unfolding handled fold_in
fold_in-handled s c h =
    ground (arith, lookup-remove (suc s.acked) c s.acked_set, lookup-remove (suc s.acked) c s.dead)

pub acked-fold_in : (next : Cursor) (s : SubscriptionState) → (fold_in next s).acked ≡ next
unfolding fold_in
acked-fold_in next s = ground arith

advance-handled :
    (fuel : ℕ) (s : SubscriptionState) (c : Cursor)
    → s.acked + fuel < u64_mod
    → handled (advance fuel s) c ≡ handled s c
unfolding advance
advance-handled zero s c room = refl
advance-handled (suc fuel) s c room =
    let e : add_u64 s.acked 1 ≡ suc s.acked = add_u64-eq s.acked 1 (omega arith) ∙ omega arith in
    elim (Bool-cases (has (suc s.acked) s.acked_set || has (suc s.acked) s.dead)) [
      | inl more ↦
          rw (e, more)
            (advance-handled fuel (fold_in (suc s.acked) s) c
                (omega (arith, acked-fold_in (suc s.acked) s))
              ∙ fold_in-handled s c more)
      | inr done ↦ rw (e, done) refl
    ]

-- The measure of the loop falls in every round, also where the addition wraps.
pub fold_in-lt :
    (next : Cursor) (s : SubscriptionState)
    → (has next s.acked_set || has next s.dead) ≡ true
    → length (fold_in next s).acked_set + length (fold_in next s).dead
      < length s.acked_set + length s.dead
unfolding fold_in
fold_in-lt next s h =
    ground (arith, length-remove-lt next s.acked_set, length-remove-lt next s.dead)

-- The loop has ended by its test: the cursor after the floor is in neither map.
abbrev pub IsSettled : SubscriptionState → Type 0
IsSettled s = (has (add_u64 s.acked 1) s.acked_set || has (add_u64 s.acked 1) s.dead) ≡ false

advance-IsSettled :
    (fuel : ℕ) (s : SubscriptionState)
    → length s.acked_set + length s.dead < fuel
    → IsSettled (advance fuel s)
unfolding advance
advance-IsSettled zero s h = absurd (omega arith)
advance-IsSettled (suc fuel) s h =
    let next = add_u64 s.acked 1 in
    elim (Bool-cases (has next s.acked_set || has next s.dead)) [
      | inl more ↦
          rw more (
            advance-IsSettled fuel (fold_in next s)
              (let lt = fold_in-lt next s more in omega arith))
      | inr done ↦ rw done done
    ]

-- The loop of `advance_acked` always ends by its own test: the cursor after the new floor is
-- neither acknowledged nor dead.
pub advance_acked-IsSettled : (s : SubscriptionState) → IsSettled (advance_acked s)
unfolding advance_acked
advance_acked-IsSettled s =
    advance-IsSettled (suc (length s.acked_set + length s.dead)) s (omega arith)

pub advance_acked-handled :
    (s : SubscriptionState) (c : Cursor)
    → s.acked + length s.acked_set + length s.dead + 1 < u64_mod
    → handled (advance_acked s) c ≡ handled s c
unfolding advance_acked
advance_acked-handled s c room =
    advance-handled (suc (length s.acked_set + length s.dead)) s c (omega arith)

-- The two states from which the loop starts in an acknowledgement.
abbrev pub released : Cursor → SubscriptionState → SubscriptionState
released k s = record s { leases = remove k s.leases; attempts = remove k s.attempts }

abbrev pub marked : Cursor → SubscriptionState → SubscriptionState
marked k s = record (released k s) { acked_set = insert k tt s.acked_set }

marked-handled :
    (k c : Cursor) (s : SubscriptionState) → handled (marked k s) c ≡ (handled s c || k == c)
unfolding handled
marked-handled k c s = ground (arith, lookup-insert k c tt s.acked_set)

released-handled :
    (k c : Cursor) (s : SubscriptionState)
    → ltb s.acked k ≡ false
    → handled (released k s) c ≡ (handled s c || k == c)
unfolding handled
released-handled k c s below = ground arith

-- An acknowledgement marks its cursor and no other.
pub ack_cursor-handled :
    (k c : Cursor) (s : SubscriptionState)
    → s.acked + length s.acked_set + length s.dead + 2 < u64_mod
    → handled (ack_cursor k s) c ≡ (handled s c || k == c)
unfolding ack_cursor
ack_cursor-handled k c s room = elim (Bool-cases (ltb s.acked k)) [
  | inl above ↦
      rw
        (
          above,
          advance_acked-handled (marked k s) c (omega (arith, length-insert-le k tt s.acked_set)),
        )
        (marked-handled k c s)
  | inr below ↦
      rw (below, advance_acked-handled (released k s) c (omega arith))
        (released-handled k c s below)
]

pub nack_cursor-handled :
    (k c : Cursor) (s : SubscriptionState) → handled (nack_cursor k s) c ≡ handled s c
unfolding nack_cursor handled
nack_cursor-handled k c s = refl

mark_dead-handled :
    (s : SubscriptionState) (d c : Cursor) → handled (mark_dead s d) c ≡ (handled s c || d == c)
unfolding mark_dead handled
mark_dead-handled s d c = ground (arith, lookup-insert d c tt s.dead)

mark_all_dead-handled :
    (s : SubscriptionState) (ds : List Cursor) (c : Cursor)
    → handled (mark_all_dead s ds) c ≡ (handled s c || member c ds)
mark_all_dead-handled s [] c = ground arith
mark_all_dead-handled s (d ∷ ds) c =
    ground (arith, mark_dead-handled s d c, mark_all_dead-handled (mark_dead s d) ds c)

grant_lease-handled :
    (s : SubscriptionState) (l : Cursor × ℕ) (c : Cursor)
    → handled (grant_lease s l) c ≡ handled s c
unfolding grant_lease handled
grant_lease-handled s (d, expires_at) c = refl

grant_leases-handled :
    (s : SubscriptionState) (ls : List (Cursor × ℕ)) (c : Cursor)
    → handled (grant_leases s ls) c ≡ handled s c
grant_leases-handled s [] c = refl
grant_leases-handled s (l ∷ ls) c =
    grant_leases-handled (grant_lease s l) ls c ∙ grant_lease-handled s l c

raise_floor-handled :
    (n c : Cursor) (s : SubscriptionState) → handled (raise_floor n s) c ≡ (handled s c || leb c n)
unfolding raise_floor handled
raise_floor-handled n c s =
    ground
      (arith, lookup-retain (λ k. ltb n k) c s.acked_set, lookup-retain (λ k. ltb n k) c s.dead)

-- A committed lease marks the dead-lettered cursors and those up to the new floor.
pub commit_lease-handled :
    (leased : List (Cursor × ℕ)) (dead : List Cursor) (n c : Cursor) (s : SubscriptionState)
    → handled (commit_lease leased dead n s) c ≡ (handled s c || member c dead || leb c n)
unfolding commit_lease
commit_lease-handled leased dead n c s =
    rw
      (
        raise_floor-handled n c (grant_leases (mark_all_dead s dead) leased),
        grant_leases-handled (mark_all_dead s dead) leased c,
        mark_all_dead-handled s dead c,
      )
      (ground arith)
