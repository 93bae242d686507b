-- ===== src/Subscription/Attempts.antt =====
-- How often a message is delivered: the attempts that a subscription counts.
pub mod Bound
pub mod Dead
use ce_pubsub.Prelude.{
  ℕ, zero, suc, ◌+◌, ◌-◌, ◌≤◌, ◌<◌, ◌≡◌, refl, sym, ap, subst, ◌∙◌, inl, inr, Bool, true, false,
  ◌||◌, ◌==◌, ltb, Option, none, some, List, [], ◌∷◌, map, arith, length, member, select, range,
  Bool-cases, if◌then◌else◌, max,
}
use mathlib.Core.Option
use ce_pubsub.Prelude.Words.{u64_mod, u32_mod, add_u64, add_u32, add_u32-eq}
use ce_pubsub.Prelude.Order.{ℕ_order}
use ce_pubsub.Prelude.Map.{Map, lookup, has, remove, insert, lookup-remove}
use ce_pubsub.Message.{Cursor}
use ce_pubsub.Subscription.{
  SubscriptionPolicy, SubscriptionState, next_attempt, mark_dead, mark_all_dead, grant_lease,
  grant_leases, raise_floor, commit_lease, fold_in, advance, advance_acked, ack_cursor, nack_cursor,
}
use ce_pubsub.Subscription.Plan.{exhausted, expiry, scanned, new_floor}
use ce_pubsub.Subscription.Scan.{due, stamp}
use ce_pubsub.Subscription.Handled.{handled}
use ce_pubsub.Subscription.Delivery.{cursors, cursors-deliver, Fits, leased_sound, scanned-Outcome}
use ce_pubsub.Subscription.Commit.{
  committed, lease_once, lease_once-keeps, Entries, mark_all_dead-Entries, grant_leases_other,
  raise_floor-Entries, cursors-stamp, lease_once-Entries,
}
use ce_pubsub.Subscription.Run.{
  Event, leases, acks, nacks, sets_policy, step, ends, Room, step-handled,
}

-- The attempts that a subscription has counted for a cursor.
abbrev pub counted : SubscriptionState → Cursor → ℕ
counted s c = Option.get_or (lookup c s.attempts) 0

abbrev pub leases_it : SubscriptionState → Event → Cursor → Bool
leases_it s (leases high floor now limit) c =
    member c (cursors (scanned s high floor now limit).leased_out)
leases_it s (acks k) c = false
leases_it s (nacks k) c = false
leases_it s (sets_policy p) c = false

-- How many of the leases of a run contain the cursor.
unfoldable pub deliveries : SubscriptionState → List Event → Cursor → ℕ
deliveries s [] c = 0
deliveries s (e ∷ es) c =
    let later = deliveries (step s e) es c in if leases_it s e c then suc later else later

-- The policy sets a limit on attempts, of `most` at the most.
abbrev pub Limits : ℕ → SubscriptionPolicy → Type 0
Limits most p = (0 < p.max_delivery_attempts) × (p.max_delivery_attempts ≤ most)

-- No sum of the event wraps, and a new policy has a limit again.
abbrev pub Sane : ℕ → SubscriptionState → Event → Type 0
Sane most s (leases high floor now limit) = Fits s high floor
Sane most s (acks c) = Unit {0}
Sane most s (nacks c) = Unit {0}
Sane most s (sets_policy p) = Limits most p

abbrev pub SaneFor : ℕ → SubscriptionState → List Event → Type 0
SaneFor most s [] = Unit {0}
SaneFor most s (e ∷ es) = (Room s e × Sane most s e) × SaneFor most (step s e) es

mark_all_dead-policy :
    (s : SubscriptionState) (ds : List Cursor) → (mark_all_dead s ds).policy ≡ s.policy
unfolding mark_dead
mark_all_dead-policy s [] = refl
mark_all_dead-policy s (d ∷ ds) = mark_all_dead-policy (mark_dead s d) ds

grant_leases-policy :
    (s : SubscriptionState) (ls : List (Cursor × ℕ)) → (grant_leases s ls).policy ≡ s.policy
unfolding grant_lease
grant_leases-policy s [] = refl
grant_leases-policy s (l ∷ ls) = grant_leases-policy (grant_lease s l) ls

raise_floor-policy : (n : Cursor) (s : SubscriptionState) → (raise_floor n s).policy ≡ s.policy
unfolding raise_floor
raise_floor-policy n s = ground arith

lease_once-policy :
    (s : SubscriptionState) (high floor : Cursor) (now limit : ℕ)
    → (lease_once s high floor now limit).policy ≡ s.policy
unfolding committed commit_lease
lease_once-policy s high floor now limit =
    let p = scanned s high floor now limit in
    lease_once-keeps (λ t. t.policy ≡ s.policy) s high floor now limit refl
      (raise_floor-policy (new_floor s floor p)
          (grant_leases (mark_all_dead s p.dead) p.leased_stamped)
        ∙ grant_leases-policy (mark_all_dead s p.dead) p.leased_stamped
        ∙ mark_all_dead-policy s p.dead)

-- The advance of the floor leaves policy and attempts alone.
fold_in-keeps :
    (next : Cursor) (s : SubscriptionState)
    → ((fold_in next s).policy ≡ s.policy)
      × ((fold_in next s).attempts ≡ s.attempts)
      × ((fold_in next s).leases ≡ s.leases)
unfolding fold_in
fold_in-keeps next s = ground arith

advance-keeps :
    (fuel : ℕ) (s : SubscriptionState)
    → ((advance fuel s).policy ≡ s.policy)
      × ((advance fuel s).attempts ≡ s.attempts)
      × ((advance fuel s).leases ≡ s.leases)
unfolding advance
advance-keeps zero s = (refl, refl, refl)
advance-keeps (suc fuel) s =
    let next = add_u64 s.acked 1 in
    let (p1, a1, l1) = fold_in-keeps next s in
    let (p2, a2, l2) = advance-keeps fuel (fold_in next s) in
    elim (Bool-cases (has next s.acked_set || has next s.dead)) [
      | inl on ↦ rw on (p2 ∙ p1, a2 ∙ a1, l2 ∙ l1)
      | inr over ↦ rw over (refl, refl, refl)
    ]

-- What an acknowledgement advances.
abbrev released : Cursor → SubscriptionState → SubscriptionState
released k s =
    let freed = record s { leases = remove k s.leases; attempts = remove k s.attempts } in
    if ltb s.acked k then record freed { acked_set = insert k tt s.acked_set } else freed

released-keeps :
    (k : Cursor) (s : SubscriptionState)
    → ((released k s).policy ≡ s.policy)
      × ((released k s).attempts ≡ remove k s.attempts)
      × ((released k s).leases ≡ remove k s.leases)
released-keeps k s = ground arith

pub ack_cursor-keeps :
    (k : Cursor) (s : SubscriptionState)
    → ((ack_cursor k s).policy ≡ s.policy)
      × ((ack_cursor k s).attempts ≡ remove k s.attempts)
      × ((ack_cursor k s).leases ≡ remove k s.leases)
unfolding ack_cursor advance_acked
ack_cursor-keeps k s =
    let t = released k s in
    let (p1, a1, l1) = released-keeps k s in
    let (p2, a2, l2) = advance-keeps (suc (length t.acked_set + length t.dead)) t in
    (p2 ∙ p1, a2 ∙ a1, l2 ∙ l1)

pub counted-ack_cursor :
    (k : Cursor) (s : SubscriptionState) (c : Cursor)
    → (k == c) ≡ false
    → counted (ack_cursor k s) c ≡ counted s c
counted-ack_cursor k s c other =
    ap (λ (m : Map Cursor ℕ). Option.get_or (lookup c m) 0) (ack_cursor-keeps k s).1
    ∙ ground (arith, lookup-remove k c s.attempts, other)

pub step-policy :
    (most : ℕ) (s : SubscriptionState) (e : Event)
    → Sane most s e
    → Limits most s.policy
    → Limits most (step s e).policy
unfolding step nack_cursor
step-policy most s (leases high floor now limit) sane l =
    rw (lease_once-policy s high floor now limit) l
step-policy most s (acks k) sane l = rw (ack_cursor-keeps k s).0 l
step-policy most s (nacks k) sane l = l
step-policy most s (sets_policy p) sane l = sane

counted-eq :
    (s t : SubscriptionState) (c : Cursor)
    → lookup c t.attempts ≡ lookup c s.attempts
    → counted t c ≡ counted s c
counted-eq s t c e = ap (λ o. Option.get_or o 0) e

-- A lease of other cursors leaves what the dead letters left.
pub committed_unleased :
    (s : SubscriptionState) (high floor : Cursor) (now limit : ℕ) (c : Cursor)
    → Fits s high floor
    → member c (cursors (scanned s high floor now limit).leased_out) ≡ false
    → let t = mark_all_dead s (scanned s high floor now limit).dead in
      Entries (committed s high floor now limit) c (lookup c t.leases) (lookup c t.attempts)
unfolding committed commit_lease
committed_unleased s high floor now limit c fits out =
    let p = scanned s high floor now limit in
    let from = suc (max s.acked floor) in
    let (n, le, out_eq, stamped, _, _, _) = scanned-Outcome s high floor now limit fits in
    let picked = select (due s now) (range from n) in
    let names : cursors p.leased_stamped ≡ cursors p.leased_out =
      rw (stamped, out_eq) (cursors-stamp (expiry s now) picked ∙ sym (cursors-deliver s picked)) in
    let t = mark_all_dead s p.dead in
    let (l, a) = grant_leases_other t p.leased_stamped c (rw names out) in
    let (l', a') = raise_floor-Entries (new_floor s floor p) c (grant_leases t p.leased_stamped) in
    (l' ∙ l, a' ∙ a)

-- A lease of other cursors that does not move this one to the dead letters leaves its entries.
pub lease_once_other :
    (s : SubscriptionState) (high floor : Cursor) (now limit : ℕ) (c : Cursor)
    → Fits s high floor
    → member c (scanned s high floor now limit).dead ≡ false
    → member c (cursors (scanned s high floor now limit).leased_out) ≡ false
    → Entries (lease_once s high floor now limit) c (lookup c s.leases) (lookup c s.attempts)
lease_once_other s high floor now limit c fits alive out =
    let (l, a) = mark_all_dead-Entries s (scanned s high floor now limit).dead c alive in
    let (l', a') = committed_unleased s high floor now limit c fits out in
    lease_once-keeps (λ t. Entries t c (lookup c s.leases) (lookup c s.attempts)) s high floor now
      limit (refl, refl) (l' ∙ l, a' ∙ a)

pub counted-lease_once :
    (s : SubscriptionState) (high floor : Cursor) (now limit : ℕ) (c : Cursor)
    → Fits s high floor
    → member c (scanned s high floor now limit).dead ≡ false
    → member c (cursors (scanned s high floor now limit).leased_out) ≡ false
    → counted (lease_once s high floor now limit) c ≡ counted s c
counted-lease_once s high floor now limit c fits alive out =
    counted-eq s (lease_once s high floor now limit) c
      (lease_once_other s high floor now limit c fits alive out).1
