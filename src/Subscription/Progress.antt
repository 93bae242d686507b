-- ===== src/Subscription/Progress.antt =====
-- What is handled after a call, and what is delivered again.
use ce_pubsub.Prelude.{
  ℕ, suc, ◌+◌, ◌≤◌, ◌<◌, ◌≡◌, refl, ◌∙◌, inl, inr, true, false, ◌||◌, ◌&&◌, not, List, [], ◌∷◌,
  ◌++◌, arith, leb, if◌then◌else◌, length, member, Bool-cases, max, min, member-append,
}
use ce_pubsub.Prelude.Words.{u64_mod}
use ce_pubsub.Prelude.Order.{ℕ_order}
use ce_pubsub.Prelude.Map.{Map, keys, lookup, has, lookup-modify}
use ce_pubsub.Message.{Cursor}
use ce_pubsub.Subscription.{SubscriptionState, next_attempt, max_lease_batch, nack_cursor}
use ce_pubsub.Subscription.Plan.{
  Plan, leased_unexpired, exhausted, expiry, scanned, handled_after, new_floor, idle,
}
use ce_pubsub.Subscription.Handled.{handled, commit_lease-handled}
use ce_pubsub.Subscription.Bridge.{bridge-ge, bridge-covers}
use ce_pubsub.Subscription.Delivery.{
  cursors, InReach, Fits, leased_sound, dead_sound, scan_complete,
}
use ce_pubsub.Subscription.Commit.{
  committed, lease_once, lease_once-eq, lease_once-idle, lease_once-Entries,
}

pub member-keys {ℓ} : {V : Type ℓ} (c : Cursor) (m : Map Cursor V) → member c (keys m) ≡ has c m
unfolding lookup
member-keys c [] = refl
member-keys c ((k, v) ∷ m) = ground (arith, member-keys c m)

-- No step of the second loop wraps.
abbrev pub FloorFits : SubscriptionState → Cursor → Plan → Type 0
FloorFits s floor p = max s.acked floor + suc (length (handled_after s p)) < u64_mod

pub new_floor-ge :
    (s : SubscriptionState) (floor : Cursor) (p : Plan)
    → FloorFits s floor p
    → max s.acked floor ≤ new_floor s floor p
unfolding new_floor
new_floor-ge s floor p room =
    bridge-ge (suc (length (handled_after s p))) (handled_after s p) (max s.acked floor) room

new_floor-covers :
    (s : SubscriptionState) (floor : Cursor) (p : Plan) (c : Cursor)
    → FloorFits s floor p
    → leb c (new_floor s floor p) ≡ true
    → (handled s c || member c p.dead || leb c floor) ≡ true
unfolding new_floor handled_after handled
new_floor-covers s floor p c room le =
    let h =
      bridge-covers (suc (length (handled_after s p))) (handled_after s p) (max s.acked floor) c
        room le in
    ground (
      arith,
      h,
      member-append c (keys s.dead) (keys s.acked_set ++ p.dead),
      member-append c (keys s.acked_set) p.dead,
      member-keys c s.dead,
      member-keys c s.acked_set,
    )

leased-not-dead :
    (s : SubscriptionState) (high floor : Cursor) (now limit : ℕ) (fits : Fits s high floor)
    (c : Cursor)
    → member c (cursors (scanned s high floor now limit).leased_out) ≡ true
    → member c (scanned s high floor now limit).dead ≡ false
leased-not-dead s high floor now limit fits c h =
    elim (Bool-cases (member c (scanned s high floor now limit).dead)) [
      | inr out ↦ out
      | inl d ↦
          let (_, _, _, fresh) = leased_sound s high floor now limit fits c h in
          let (_, _, _, worn) = dead_sound s high floor now limit fits c d in absurd (cc)
    ]

pub above_floor : (s : SubscriptionState) (c : Cursor) → handled s c ≡ false → s.acked < c
unfolding handled
above_floor s c h = ground arith

no_members : (c : Cursor) (cs : List Cursor) → length cs ≡ 0 → member c cs ≡ false
no_members c [] h = refl
no_members c (x ∷ cs) h = absurd (omega (arith, h))

idle-dead : (p : Plan) (c : Cursor) → idle p ≡ true → member c p.dead ≡ false
unfolding idle
idle-dead p c still = no_members c p.dead (ground (arith, still))

module _ (s : SubscriptionState) (high floor : Cursor) (now limit : ℕ)
    (room : FloorFits s floor (scanned s high floor now limit)) where
  pub committed-handled :
      (c : Cursor)
      → handled (committed s high floor now limit) c
        ≡ (handled s c || member c (scanned s high floor now limit).dead || leb c floor)
  unfolding committed
  committed-handled c =
      let p = scanned s high floor now limit in
      let ge = new_floor-ge s floor p room in
      commit_lease-handled p.leased_stamped p.dead (new_floor s floor p) c s
      ∙ ground (arith, new_floor-covers s floor p c room)

  -- One call adds the cursors that it moves to the dead letters and, unless it is idle, those that
  -- retention dropped, and no other: the floor never passes a message that may still be delivered.
  pub lease_once-handled :
      (c : Cursor)
      → handled (lease_once s high floor now limit) c ≡ (
          handled s c
          || (member c (scanned s high floor now limit).dead
              || (not (idle (scanned s high floor now limit)) && leb c floor)))
  lease_once-handled c =
      let p = scanned s high floor now limit in
      elim (Bool-cases (idle p)) [
        | inr busy ↦
            rw (lease_once-eq s high floor now limit busy, committed-handled c)
              (ground (arith, busy))
        | inl still ↦
            rw (lease_once-idle s high floor now limit still)
              (ground (arith, idle-dead p c still, still))
      ]

  -- Where no sum wraps, a leased cursor is leased again by a next call at or after the deadline,
  -- or goes to the dead letters if its attempts are used up, provided that this call still sees
  -- the cursor and its batch has room left.
  pub redelivered :
      (c high' floor' : Cursor) (later limit' : ℕ)
      → Fits s high floor
      → Fits (lease_once s high floor now limit) high' floor'
      → member c (cursors (scanned s high floor now limit).leased_out) ≡ true
      → expiry s now ≤ later
      → high ≤ high'
      → floor' < c
      → let s' = lease_once s high floor now limit in
        let p' = scanned s' high' floor' later limit' in
        length p'.leased_out < min limit' max_lease_batch
        → (if exhausted s' c then member c p'.dead else member c (cursors p'.leased_out)) ≡ true
  unfolding leased_unexpired
  redelivered c high' floor' later limit' fits fits' h late hh ff batch =
      let s' = lease_once s high floor now limit in
      let (reach, open_, _, fresh) = leased_sound s high floor now limit fits c h in
      let alive = leased-not-dead s high floor now limit fits c h in
      let (l, _) = lease_once-Entries s high floor now limit fits c h in
      let open' : handled s' c ≡ false =
        rw (lease_once-handled c, open_, alive) (ground (arith, reach)) in
      scan_complete s' high' floor' later limit' fits' c batch
        (above_floor s' c open', ff, omega (arith, reach)) open' (ground (arith, l))

-- After a negative acknowledgement of a cursor that is in reach and not handled, the next call
-- whose batch has room left leases it at any time, or moves it to the dead letters if its
-- attempts are used up; no sum may wrap.
pub nack_redelivers :
    (s : SubscriptionState) (c high floor : Cursor) (now limit : ℕ)
    → Fits (nack_cursor c s) high floor
    → InReach s high floor c
    → handled s c ≡ false
    → let s' = nack_cursor c s in
      let p = scanned s' high floor now limit in
      length p.leased_out < min limit max_lease_batch
      → (if exhausted s c then member c p.dead else member c (cursors p.leased_out)) ≡ true
unfolding nack_cursor leased_unexpired handled exhausted next_attempt
nack_redelivers s c high floor now limit fits reach open_ batch =
    scan_complete (nack_cursor c s) high floor now limit fits c batch reach open_
      (ground (arith, lookup-modify c c (λ l. record l { expires_at = 0 }) s.leases))
