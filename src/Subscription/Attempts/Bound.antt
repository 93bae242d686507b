-- ===== src/Subscription/Attempts/Bound.antt =====
-- The limit on the deliveries of a message.
use ce_pubsub.Prelude.{
  ℕ, suc, ◌-◌, ◌≤◌, ◌<◌, ◌≡◌, refl, ap, ◌∙◌, inl, inr, true, false, List, [], ◌∷◌, arith, member,
  Bool-cases,
}
use mathlib.Core.Option
use ce_pubsub.Prelude.Words.{u32_mod, add_u32-eq}
use ce_pubsub.Prelude.Order.{ℕ_order}
use ce_pubsub.Message.{Cursor}
use ce_pubsub.Subscription.{SubscriptionState, next_attempt, nack_cursor}
use ce_pubsub.Subscription.Plan.{exhausted, scanned}
use ce_pubsub.Subscription.Handled.{handled}
use ce_pubsub.Subscription.Delivery.{cursors, Fits, leased_sound}
use ce_pubsub.Subscription.Commit.{lease_once, lease_once-Entries}
use ce_pubsub.Subscription.Run.{Event, leases, acks, nacks, sets_policy, step, ends, step-handled}
use ce_pubsub.Subscription.Attempts.{
  counted, leases_it, deliveries, Limits, Sane, SaneFor, step-policy, counted-ack_cursor,
  counted-lease_once,
}

leases_it-handled :
    (most : ℕ) (s : SubscriptionState) (e : Event) (c : Cursor)
    → Sane most s e
    → handled s c ≡ true
    → leases_it s e c ≡ false
leases_it-handled most s (leases high floor now limit) c fits done =
    elim (Bool-cases (member c (cursors (scanned s high floor now limit).leased_out))) [
      | inr out ↦ out
      | inl again ↦
          let (_, open_, _, _) = leased_sound s high floor now limit fits c again in absurd (cc)
    ]
leases_it-handled most s (acks k) c sane done = refl
leases_it-handled most s (nacks k) c sane done = refl
leases_it-handled most s (sets_policy p) c sane done = refl

-- A handled cursor is never leased again.
deliveries-handled :
    (most : ℕ) (s : SubscriptionState) (es : List Event) (c : Cursor)
    → SaneFor most s es
    → handled s c ≡ true
    → deliveries s es c ≡ 0
unfolding deliveries
deliveries-handled most s [] c sane done = refl
deliveries-handled most s (e ∷ es) c sane done =
    let still : handled (step s e) c ≡ true = step-handled s e c sane.0.0 ∙ ground (arith, done) in
    rw (leases_it-handled most s e c sane.0.1 done)
      (deliveries-handled most (step s e) es c sane.1 still)

-- What a lease of the cursor counts.
counted-leased :
    (most : ℕ) (s : SubscriptionState) (high floor : Cursor) (now limit : ℕ) (c : Cursor)
    → suc most < u32_mod
    → Limits most s.policy
    → counted s c ≤ most
    → Fits s high floor
    → member c (cursors (scanned s high floor now limit).leased_out) ≡ true
    → (counted (lease_once s high floor now limit) c ≡ suc (counted s c))
      × (suc (counted s c) ≤ most)
unfolding next_attempt exhausted
counted-leased most s high floor now limit c small l below fits out =
    let (_, _, _, left) = leased_sound s high floor now limit fits c out in
    let (_, a) = lease_once-Entries s high floor now limit fits c out in
    let next : next_attempt s c ≡ suc (counted s c) =
      add_u32-eq (counted s c) 1 (omega (arith, small, below)) ∙ omega arith in
    (ap (λ o. Option.get_or o 0) a ∙ next, ground (arith, left, l, next))

-- An event that neither leases the cursor nor ends its delivery leaves its count.
counted-step :
    (most : ℕ) (s : SubscriptionState) (e : Event) (c : Cursor)
    → Sane most s e
    → leases_it s e c ≡ false
    → ends s e c ≡ false
    → counted (step s e) c ≡ counted s c
unfolding step ends nack_cursor
counted-step most s (leases high floor now limit) c fits out open_ =
    counted-lease_once s high floor now limit c fits (ground (arith, open_)) out
counted-step most s (acks k) c sane out open_ = counted-ack_cursor k s c open_
counted-step most s (nacks k) c sane out open_ = refl
counted-step most s (sets_policy p) c sane out open_ = refl

-- An event that leases the cursor counts one attempt more.
counted-step_leased :
    (most : ℕ) (s : SubscriptionState) (e : Event) (c : Cursor)
    → suc most < u32_mod
    → Limits most s.policy
    → counted s c ≤ most
    → Sane most s e
    → leases_it s e c ≡ true
    → (counted (step s e) c ≡ suc (counted s c)) × (suc (counted s c) ≤ most)
unfolding step
counted-step_leased most s (leases high floor now limit) c small l below fits out =
    counted-leased most s high floor now limit c small l below fits out
counted-step_leased most s (acks k) c small l below sane out = absurd (cc)
counted-step_leased most s (nacks k) c small l below sane out = absurd (cc)
counted-step_leased most s (sets_policy p) c small l below sane out = absurd (cc)

-- Over any leases, acks, nacks and changes of policy, none of whose sums wraps, where every
-- policy sets a limit on attempts of at most `most`, `most` plus one is a u32, and no more than
-- `most` attempts are counted for a cursor before: the leases that contain the cursor number at
-- most `most` less those attempts.
pub deliveries-bound :
    (most : ℕ) (s : SubscriptionState) (es : List Event) (c : Cursor)
    → suc most < u32_mod
    → Limits most s.policy
    → SaneFor most s es
    → counted s c ≤ most
    → deliveries s es c ≤ most - counted s c
unfolding deliveries
deliveries-bound most s [] c small l sane below = omega arith
deliveries-bound most s (e ∷ es) c small l sane below =
    let l' = step-policy most s e sane.0.1 l in
    elim (Bool-cases (leases_it s e c)) [
      | inl out ↦
          let (more, within) = counted-step_leased most s e c small l below sane.0.1 out in
          let rest = deliveries-bound most (step s e) es c small l' sane.1 (rw more within) in
          rw out (omega (arith, more, within, rest))
      | inr not_out ↦ elim (Bool-cases (ends s e c)) [
        | inl over ↦
            let done : handled (step s e) c ≡ true =
              step-handled s e c sane.0.0 ∙ ground (arith, over) in
            let none_ = deliveries-handled most (step s e) es c sane.1 done in
            rw (not_out, none_) (omega arith)
        | inr open_ ↦
            let kept = counted-step most s e c sane.0.1 not_out open_ in
            let rest = deliveries-bound most (step s e) es c small l' sane.1 (rw kept below) in
            rw not_out (omega (arith, kept, rest))
      ]
    ]
