-- ===== src/Subscription/Delivery.antt =====
-- What one call of `plan_lease` hands out.
use ce_pubsub.Prelude.{
  ℕ, suc, ◌+◌, ◌-◌, ◌≤◌, ◌<◌, ◌≡◌, refl, ap, ◌∙◌, ◌⊎◌, true, false, ◌&&◌, List, [], ◌∷◌, map, arith,
  leb, ltb, if◌then◌else◌, length, member, select, range, max, min, member-select, member-range,
}
use ce_pubsub.Prelude.Words.{u64_mod, add_u64, add_u64-eq}
use ce_pubsub.Prelude.Order.{ℕ_order}
use ce_pubsub.Message.{Cursor}
use ce_pubsub.Subscription.{SubscriptionState, max_lease_batch}
use ce_pubsub.Subscription.Plan.{Plan, leased_unexpired, skipped, exhausted, expiry, start, scanned}
use ce_pubsub.Subscription.Handled.{handled}
use ce_pubsub.Subscription.Scan.{due, poison, deliver, stamp, scan_lem}

-- The cursors of a list of pairs.
abbrev pub cursors : List (Cursor × ℕ) → List Cursor
cursors [] = []
cursors ((c, n) ∷ ls) = c ∷ cursors ls

pub cursors-deliver : (s : SubscriptionState) (cs : List Cursor) → cursors (map (deliver s) cs) ≡ cs
cursors-deliver s [] = refl
cursors-deliver s (c ∷ cs) = ap (◌∷◌ c) (cursors-deliver s cs)

-- The cursor of a message that can be delivered: above the floors, and published.
abbrev pub InReach : SubscriptionState → Cursor → Cursor → Cursor → Type 0
InReach s high floor c = (s.acked < c) × (floor < c) × (c ≤ high)

-- No sum of the scan wraps.
abbrev pub Fits : SubscriptionState → Cursor → Cursor → Type 0
Fits s high floor = (suc high < u64_mod) × (suc (max s.acked floor) < u64_mod)

-- Everything the scan did: it visited a run of cursors from the start.
abbrev pub Outcome : SubscriptionState → Cursor → Cursor → ℕ → ℕ → Type 0
Outcome s high floor now limit =
    let p = scanned s high floor now limit in
    let from = suc (max s.acked floor) in
    (n : ℕ) × (n ≤ suc high - from)
    × (p.leased_out ≡ map (deliver s) (select (due s now) (range from n)))
    × (p.leased_stamped ≡ map (stamp (expiry s now)) (select (due s now) (range from n)))
    × (p.dead ≡ select (poison s now) (range from n))
    × ((n ≡ suc high - from) ⊎ (min limit max_lease_batch ≤ length p.leased_out))
    × (length p.leased_out ≤ min limit max_lease_batch)

pub scanned-Outcome :
    (s : SubscriptionState) (high floor : Cursor) (now limit : ℕ)
    → Fits s high floor
    → Outcome s high floor now limit
unfolding scanned start
scanned-Outcome s high floor now limit fits =
    let from = suc (max s.acked floor) in
    let e : add_u64 (max s.acked floor) 1 ≡ from =
      add_u64-eq (max s.acked floor) 1 (let f = fits.1 in omega arith) ∙ omega arith in
    let empty : Plan = record { leased_stamped = []; leased_out = []; dead = [] } in
    let (n, le, q, stop, most) =
      scan_lem (suc high - from) s now (expiry s now) high (min limit max_lease_batch) from empty
        (omega arith) fits.0 in
    rw e (
      n,
      le,
      ap (λ (p : Plan). p.leased_out) q,
      ap (λ (p : Plan). p.leased_stamped) q,
      ap (λ (p : Plan). p.dead) q,
      stop,
      omega arith,
    )

module _ (s : SubscriptionState) (high floor : Cursor) (now limit : ℕ)
    (fits : Fits s high floor) where
  -- Which cursors end in the two vectors, by membership.
  leased_member :
      (c : Cursor)
      → (n : ℕ) × (n ≤ suc high - suc (max s.acked floor))
        × (member c (cursors (scanned s high floor now limit).leased_out) ≡ (
            due s now c
            && (leb (suc (max s.acked floor)) c && ltb c (suc (max s.acked floor) + n))))
        × (member c (scanned s high floor now limit).dead ≡ (
            poison s now c
            && (leb (suc (max s.acked floor)) c && ltb c (suc (max s.acked floor) + n))))
        × ((n ≡ suc high - suc (max s.acked floor))
            ⊎ (min limit max_lease_batch ≤ length (scanned s high floor now limit).leased_out))
  leased_member c =
      let from = suc (max s.acked floor) in
      let (n, le, out, _, dead, stop, _) = scanned-Outcome s high floor now limit fits in
      let cs = cursors-deliver s (select (due s now) (range from n)) in
      (
        n,
        le,
        rw (out, cs, member-select c (due s now) (range from n), member-range c from n) refl,
        rw (dead, member-select c (poison s now) (range from n), member-range c from n) refl,
        stop,
      )

  -- Where no sum wraps, a cursor that the scan leases is above both floors and not above the high
  -- cursor, is not handled, is under no live lease, and has an attempt left.
  pub leased_sound :
      (c : Cursor)
      → member c (cursors (scanned s high floor now limit).leased_out) ≡ true
      → InReach s high floor c
        × (handled s c ≡ false)
        × (leased_unexpired s now c ≡ false)
        × (exhausted s c ≡ false)
  unfolding handled due skipped
  leased_sound c h = let (n, le, out, _, _) = leased_member c in ground (arith, out, h)

  pub dead_sound :
      (c : Cursor)
      → member c (scanned s high floor now limit).dead ≡ true
      → InReach s high floor c
        × (handled s c ≡ false)
        × (leased_unexpired s now c ≡ false)
        × (exhausted s c ≡ true)
  unfolding handled poison skipped
  dead_sound c h = let (n, le, _, dead, _) = leased_member c in ground (arith, dead, h)

  -- Where no sum wraps and the batch has room left after the scan, every cursor that is above
  -- both floors, not above the high cursor, not handled and under no live lease is among the
  -- leased ones, or among the dead letters if its attempts are used up.
  pub scan_complete :
      (c : Cursor)
      → length (scanned s high floor now limit).leased_out < min limit max_lease_batch
      → InReach s high floor c
      → handled s c ≡ false
      → leased_unexpired s now c ≡ false
      → (if exhausted s c
          then member c (scanned s high floor now limit).dead
          else member c (cursors (scanned s high floor now limit).leased_out))
        ≡ true
  unfolding handled due poison skipped
  scan_complete c room reach open_ free =
      let (n, le, out, dead, stop) = leased_member c in ground (arith, out, dead, stop)
