-- ===== src/Subscription/Drain.antt =====
-- A consumer that leases and acknowledges round after round.
pub mod Round
pub mod Drained
use ce_pubsub.Prelude.{
  ℕ, zero, suc, ◌+◌, ◌-◌, ◌≤◌, ◌<◌, ◌≡◌, refl, ap, ◌∙◌, ◌⊎◌, inl, inr, Bool, true, false, not, ◌||◌,
  ◌==◌, List, [], ◌∷◌, ◌++◌, map, arith, length, member, select, range, leb, ltb, length-select-le,
  Bool-cases, Option-cases, All, max, min, member-select, member-range, if◌then◌else◌,
}
use ce_pubsub.Prelude.Words.{u64_mod}
use ce_pubsub.Prelude.Order.{ℕ_order}
use ce_pubsub.Prelude.Map.{lookup, lookup-remove}
use ce_pubsub.Message.{Cursor}
use ce_pubsub.Subscription.{SubscriptionState, max_lease_batch, ack_cursor}
use ce_pubsub.Subscription.Plan.{scanned, leased_unexpired}
use ce_pubsub.Subscription.Handled.{handled}
use ce_pubsub.Subscription.Delivery.{cursors, Fits, leased_sound, scan_complete}
use ce_pubsub.Subscription.Commit.{lease_once}
use ce_pubsub.Subscription.Progress.{above_floor}
use ce_pubsub.Subscription.Run.{
  Event, leases, acks, step, run, Room, RoomFor, ended, ends, run-handled,
}
use ce_pubsub.Subscription.Attempts.{lease_once_other, ack_cursor-keeps}

-- One round: a lease at a time, and an acknowledgement of each cursor that it contains.
abbrev pub round : SubscriptionState → Cursor → Cursor → ℕ → ℕ → List Event
round s high floor limit now =
    leases high floor now limit ∷ map acks (cursors (scanned s high floor now limit).leased_out)

-- Rounds at successive times, each on the state that the one before leaves.
abbrev pub rounds : SubscriptionState → Cursor → Cursor → ℕ → List ℕ → List Event
rounds s high floor limit [] = []
rounds s high floor limit (now ∷ times) =
    let events = round s high floor limit now in
    events ++ rounds (run s events) high floor limit times

pub run-append : (s : SubscriptionState) (es fs : List Event) → run s (es ++ fs) ≡ run (run s es) fs
unfolding run
run-append s [] fs = refl
run-append s (e ∷ es) fs = run-append (step s e) es fs

pub RoomFor-append :
    (s : SubscriptionState) (es fs : List Event)
    → RoomFor s (es ++ fs)
    → RoomFor s es × RoomFor (run s es) fs
unfolding run
RoomFor-append s [] fs r = (tt, r)
RoomFor-append s (e ∷ es) fs r =
    let (here, there) = RoomFor-append (step s e) es fs r.1 in ((r.0, here), there)

-- No open cursor is under a lease that is live at a time.
abbrev pub IsQuiet : SubscriptionState → ℕ → Type 0
IsQuiet s now = (c : Cursor) → handled s c ≡ false → leased_unexpired s now c ≡ false
