-- ===== src/Subscription/Attempts/Dead.antt =====
-- When a message goes to the dead letters.
use ce_pubsub.Prelude.{
  ℕ, suc, ◌+◌, ◌≤◌, ◌<◌, ◌≡◌, refl, ap, ◌∙◌, inl, inr, true, false, List, [], ◌∷◌, arith, member,
  Bool-cases, if◌then◌else◌,
}
use mathlib.Core.Option
use ce_pubsub.Prelude.Words.{add_u32}
use ce_pubsub.Prelude.Order.{ℕ_order}
use ce_pubsub.Prelude.Map.{lookup, lookup-remove}
use ce_pubsub.Message.{Cursor}
use ce_pubsub.Subscription.{SubscriptionState, next_attempt, mark_dead, mark_all_dead, nack_cursor}
use ce_pubsub.Subscription.Plan.{exhausted, scanned}
use ce_pubsub.Subscription.Handled.{handled}
use ce_pubsub.Subscription.Delivery.{cursors, Fits, dead_sound}
use ce_pubsub.Subscription.Commit.{lease_once, lease_once-keeps, lease_once-Entries}
use ce_pubsub.Subscription.Progress.{FloorFits, lease_once-handled}
use ce_pubsub.Subscription.Run.{
  Event, leases, acks, nacks, sets_policy, step, run, RoomFor, ends, ended, run-handled,
}
use ce_pubsub.Subscription.Attempts.{
  counted, leases_it, deliveries, Sane, SaneFor, ack_cursor-keeps, committed_unleased,
}

-- How many of the leases of a run move the cursor to the dead letters.
unfoldable pub dead_letterings : SubscriptionState → List Event → Cursor → ℕ
dead_letterings s [] c = 0
dead_letterings s (leases high floor now limit ∷ es) c =
    let later = dead_letterings (step s (leases high floor now limit)) es c in
    if member c (scanned s high floor now limit).dead then suc later else later
dead_letterings s (acks k ∷ es) c = dead_letterings (step s (acks k)) es c
dead_letterings s (nacks k ∷ es) c = dead_letterings (step s (nacks k)) es c
dead_letterings s (sets_policy p ∷ es) c = dead_letterings (step s (sets_policy p)) es c

-- What has not ended has not gone to the dead letters.
dead_letterings-eq-zero :
    (s : SubscriptionState) (es : List Event) (c : Cursor)
    → ended s es c ≡ false
    → dead_letterings s es c ≡ 0
unfolding dead_letterings ended ends
dead_letterings-eq-zero s [] c h = refl
dead_letterings-eq-zero s (leases high floor now limit ∷ es) c h =
    ground (arith, h, dead_letterings-eq-zero (step s (leases high floor now limit)) es c)
dead_letterings-eq-zero s (acks k ∷ es) c h =
    dead_letterings-eq-zero (step s (acks k)) es c (ground (arith, h))
dead_letterings-eq-zero s (nacks k ∷ es) c h = dead_letterings-eq-zero (step s (nacks k)) es c h
dead_letterings-eq-zero s (sets_policy p ∷ es) c h =
    dead_letterings-eq-zero (step s (sets_policy p)) es c h

next_attempt-le : (s : SubscriptionState) (c : Cursor) → next_attempt s c ≤ suc (counted s c)
unfolding next_attempt add_u32
next_attempt-le s c = omega arith

counted-mark_all_dead-le :
    (s : SubscriptionState) (ds : List Cursor) (c : Cursor)
    → counted (mark_all_dead s ds) c ≤ counted s c
unfolding mark_dead
counted-mark_all_dead-le s [] c = omega arith
counted-mark_all_dead-le s (d ∷ ds) c =
    ground (arith, counted-mark_all_dead-le (mark_dead s d) ds c, lookup-remove d c s.attempts)

counted-lease_once-le :
    (s : SubscriptionState) (high floor : Cursor) (now limit : ℕ) (c : Cursor)
    → Fits s high floor
    → counted (lease_once s high floor now limit) c
      ≤ counted s c
        + (if member c (cursors (scanned s high floor now limit).leased_out) then 1 else 0)
counted-lease_once-le s high floor now limit c fits =
    let p = scanned s high floor now limit in
    elim (Bool-cases (member c (cursors p.leased_out))) [
      | inl out ↦
          let (_, a) = lease_once-Entries s high floor now limit fits c out in
          let e = ap (λ o. Option.get_or o 0) a in rw out (omega (arith, e, next_attempt-le s c))
      | inr not_out ↦
          let (_, a) = committed_unleased s high floor now limit c fits not_out in
          let e = ap (λ o. Option.get_or o 0) a in
          let le = counted-mark_all_dead-le s p.dead c in
          rw not_out (
            lease_once-keeps (λ t. counted t c ≤ counted s c + 0) s high floor now limit
              (omega arith) (omega (arith, e, le)))
    ]

counted-step-le :
    (most : ℕ) (s : SubscriptionState) (e : Event) (c : Cursor)
    → Sane most s e
    → counted (step s e) c ≤ counted s c + (if leases_it s e c then 1 else 0)
unfolding step nack_cursor
counted-step-le most s (leases high floor now limit) c fits =
    counted-lease_once-le s high floor now limit c fits
counted-step-le most s (acks k) c sane =
    let e = ap (λ m. Option.get_or (lookup c m) 0) (ack_cursor-keeps k s).1 in
    ground (arith, e, lookup-remove k c s.attempts)
counted-step-le most s (nacks k) c sane = omega arith
counted-step-le most s (sets_policy p) c sane = omega arith

-- No more attempts are counted than leases contain the cursor.
counted-run-le :
    (most : ℕ) (s : SubscriptionState) (es : List Event) (c : Cursor)
    → SaneFor most s es
    → counted (run s es) c ≤ counted s c + deliveries s es c
unfolding run deliveries
counted-run-le most s [] c sane = omega arith
counted-run-le most s (e ∷ es) c sane =
    let here = counted-step-le most s e c sane.0.1 in
    let rest = counted-run-le most (step s e) es c sane.1 in
    elim (Bool-cases (leases_it s e c)) [
      | inl out ↦ let h = rw out at here in rw out (omega (arith, h, rest))
      | inr not_out ↦ let h = rw not_out at here in rw not_out (omega (arith, h, rest))
    ]

RoomFor-SaneFor :
    (most : ℕ) (s : SubscriptionState) (es : List Event) → SaneFor most s es → RoomFor s es
RoomFor-SaneFor most s [] sane = tt
RoomFor-SaneFor most s (e ∷ es) sane = (sane.0.0, RoomFor-SaneFor most (step s e) es sane.1)

-- If after a run of events, none of whose sums wraps and whose policies keep to one bound on
-- attempts, from a state that counts no attempt for a cursor, a lease none of whose sums wraps
-- moves the cursor to the dead letters, then the policy sets a limit on attempts, at least that
-- many leases of the run contained the cursor, none of them moved it to the dead letters, and
-- after this lease it is handled.
pub dead_letter_lem :
    (most : ℕ) (s : SubscriptionState) (es : List Event) (c high floor : Cursor) (now limit : ℕ)
    → SaneFor most s es
    → counted s c ≡ 0
    → let s' = run s es in
      Fits s' high floor
      → FloorFits s' floor (scanned s' high floor now limit)
      → member c (scanned s' high floor now limit).dead ≡ true
      → (0 < s'.policy.max_delivery_attempts)
        × (s'.policy.max_delivery_attempts ≤ deliveries s es c)
        × (dead_letterings s es c ≡ 0)
        × (handled (lease_once s' high floor now limit) c ≡ true)
unfolding exhausted
dead_letter_lem most s es c high floor now limit sane zero fits room poison =
    let s' = run s es in
    let (_, open_, _, worn) = dead_sound s' high floor now limit fits c poison in
    let count = counted-run-le most s es c sane in
    let next = next_attempt-le s' c in
    let ended_ = run-handled s es c (RoomFor-SaneFor most s es sane) in
    (
      ground (arith, worn),
      ground (arith, worn, count, next, zero),
      dead_letterings-eq-zero s es c (ground (arith, ended_, open_)),
      lease_once-handled s' high floor now limit room c ∙ ground (arith, poison),
    )
