-- ===== src/Subscription/Drain/Round.antt =====
-- What one round of a lease and its acknowledgements does.
use ce_pubsub.Prelude.{
  ℕ, suc, ◌≤◌, ◌<◌, ◌≡◌, refl, ◌∙◌, ◌⊎◌, inl, inr, true, false, ◌||◌, ◌&&◌, not, List, [], ◌∷◌, map,
  arith, length, member, leb, ltb, Bool-cases, min,
}
use ce_pubsub.Prelude.Words.{u64_mod}
use ce_pubsub.Prelude.Order.{ℕ_order}
use ce_pubsub.Prelude.Map.{lookup, lookup-remove}
use ce_pubsub.Message.{Cursor}
use ce_pubsub.Subscription.{SubscriptionState, max_lease_batch, ack_cursor}
use ce_pubsub.Subscription.Plan.{scanned, idle, leased_unexpired}
use ce_pubsub.Subscription.Handled.{handled}
use ce_pubsub.Subscription.Delivery.{cursors, Fits, leased_sound, scan_complete}
use ce_pubsub.Subscription.Commit.{lease_once}
use ce_pubsub.Subscription.Progress.{above_floor}
use ce_pubsub.Subscription.Run.{acks, step, run, RoomFor, ended, ends, run-handled}
use ce_pubsub.Subscription.Attempts.{lease_once_other, ack_cursor-keeps}
use ce_pubsub.Subscription.Drain.{round, IsQuiet}

ended-acks :
    (s : SubscriptionState) (cs : List Cursor) (c : Cursor) → ended s (map acks cs) c ≡ member c cs
unfolding ended ends
ended-acks s [] c = refl
ended-acks s (k ∷ cs) c = ground (arith, ended-acks (step s (acks k)) cs c)

ended-round :
    (s : SubscriptionState) (high floor : Cursor) (limit now : ℕ) (c : Cursor)
    → ended s (round s high floor limit now) c ≡ (
        (member c (scanned s high floor now limit).dead
          || (not (idle (scanned s high floor now limit)) && leb c floor))
        || member c (cursors (scanned s high floor now limit).leased_out))
unfolding ended ends step
ended-round s high floor limit now c =
    rw
      (ended-acks (lease_once s high floor now limit)
        (cursors (scanned s high floor now limit).leased_out) c)
      refl

acks-leases :
    (s : SubscriptionState) (cs : List Cursor) (c : Cursor) (now : ℕ)
    → leased_unexpired s now c ≡ false
    → leased_unexpired (run s (map acks cs)) now c ≡ false
unfolding run step leased_unexpired
acks-leases s [] c now free = free
acks-leases s (k ∷ cs) c now free =
    acks-leases (ack_cursor k s) cs c now
      (rw (ack_cursor-keeps k s).2 (ground (arith, lookup-remove k c s.leases, free)))

leased_unexpired-eq :
    (s t : SubscriptionState) (c : Cursor) (now : ℕ)
    → lookup c t.leases ≡ lookup c s.leases
    → leased_unexpired t now c ≡ leased_unexpired s now c
unfolding leased_unexpired
leased_unexpired-eq s t c now e = rw (e, leased_unexpired) refl

Fits-room :
    (s : SubscriptionState) (high floor : Cursor) (limit now : ℕ)
    → suc high < u64_mod
    → RoomFor s (round s high floor limit now)
    → Fits s high floor
Fits-room s high floor limit now top room = (top, let r = room.0 in omega arith)

nonempty : (ls : List (Cursor × ℕ)) → 0 < length ls → (x : Cursor) × (member x (cursors ls) ≡ true)
nonempty [] h = absurd (omega arith)
nonempty ((c, n) ∷ ls) h = (c, ground arith)

module _ (s : SubscriptionState) (high floor : Cursor) (limit now : ℕ) (top : suc high < u64_mod)
    (room : RoomFor s (round s high floor limit now)) where
  -- What a round has handled.
  round-handled :
      (c : Cursor)
      → handled (run s (round s high floor limit now)) c ≡ (
          handled s c
          || ((member c (scanned s high floor now limit).dead
                || (not (idle (scanned s high floor now limit)) && leb c floor))
              || member c (cursors (scanned s high floor now limit).leased_out)))
  round-handled c =
      run-handled s (round s high floor limit now) c room
      ∙ rw (ended-round s high floor limit now c) refl

  -- What is open after a round was open before, and under no live lease after if not before.
  pub round-IsQuiet : (t0 : ℕ) → IsQuiet s t0 → IsQuiet (run s (round s high floor limit now)) t0
  unfolding run step
  round-IsQuiet t0 quiet c open_ =
      let p = scanned s high floor now limit in
      let still = rw (round-handled c) at open_ in
      let before : handled s c ≡ false = ground (arith, still) in
      let alive : member c p.dead ≡ false = ground (arith, still) in
      let out : member c (cursors p.leased_out) ≡ false = ground (arith, still) in
      let (l, _) =
        lease_once_other s high floor now limit c (Fits-room s high floor limit now top room) alive
          out in
      acks-leases (lease_once s high floor now limit) (cursors p.leased_out) c t0
        (leased_unexpired-eq s (lease_once s high floor now limit) c t0 l ∙ quiet c before)

  -- A round with nothing live in its way handles everything in reach, or a cursor that was open.
  pub round-progress :
      (0 < limit)
      → IsQuiet s now
      → ((c : Cursor)
          → floor < c
          → c ≤ high
          → handled (run s (round s high floor limit now)) c ≡ true)
        ⊎ ((x : Cursor) × (floor < x)
            × (x ≤ high)
            × (handled s x ≡ false)
            × (handled (run s (round s high floor limit now)) x ≡ true))
  round-progress some_limit quiet =
      let p = scanned s high floor now limit in
      let fits = Fits-room s high floor limit now top room in
      elim (Bool-cases (ltb (length p.leased_out) (min limit max_lease_batch))) [
        | inl more ↦ inl (λ c above below.
            let after = round-handled c in
            elim (Bool-cases (handled s c)) [
              | inl old ↦ ground (arith, after, old)
              | inr open_ ↦
                  let found =
                    scan_complete s high floor now limit fits c (ground arith)
                      (above_floor s c open_, above, below) open_ (quiet c open_) in
                  ground (arith, after, found)
            ])
        | inr full ↦
            let (x, there) = nonempty p.leased_out (ground arith) in
            let ((_, above, below), open_, _, _) =
              leased_sound s high floor now limit fits x there in
            inr (x, above, below, open_, ground (arith, round-handled x, there))
      ]
