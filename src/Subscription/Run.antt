-- ===== src/Subscription/Run.antt =====
-- One subscription through any sequence of events.
use ce_pubsub.Prelude.{
  ℕ, ◌+◌, ◌<◌, ◌≡◌, ◌∙◌, inl, inr, Bool, true, false, ◌||◌, ◌&&◌, not, List, [], ◌∷◌, arith, leb,
  ◌==◌, length, member, Bool-cases,
}
use ce_pubsub.Prelude.Words.{u64_mod}
use ce_pubsub.Message.{Cursor}
use ce_pubsub.Subscription.{SubscriptionPolicy, SubscriptionState, ack_cursor, nack_cursor}
use ce_pubsub.Subscription.Plan.{scanned, idle}
use ce_pubsub.Subscription.Handled.{handled, ack_cursor-handled, nack_cursor-handled}
use ce_pubsub.Subscription.Delivery.{cursors, Fits, leased_sound}
use ce_pubsub.Subscription.Commit.{lease_once}
use ce_pubsub.Subscription.Progress.{FloorFits, lease_once-handled}

-- A call for messages, with the high cursor and the retention floor that it finds, the time and
-- the limit; an acknowledgement; a negative one; a new policy.
pub data Event : Type 0 where
  leases : Cursor → Cursor → ℕ → ℕ → Event
  acks nacks : Cursor → Event
  sets_policy : SubscriptionPolicy → Event

unfoldable pub step : SubscriptionState → Event → SubscriptionState
step s (leases high floor now limit) = lease_once s high floor now limit
step s (acks c) = ack_cursor c s
step s (nacks c) = nack_cursor c s
step s (sets_policy p) = record s { policy = p }

unfoldable pub run : SubscriptionState → List Event → SubscriptionState
run s [] = s
run s (e ∷ es) = run (step s e) es

-- No sum of the step wraps.
abbrev pub Room : SubscriptionState → Event → Type 0
Room s (leases high floor now limit) = FloorFits s floor (scanned s high floor now limit)
Room s (acks c) = s.acked + length s.acked_set + length s.dead + 2 < u64_mod
Room s (nacks c) = Unit {0}
Room s (sets_policy p) = Unit {0}

abbrev pub RoomFor : SubscriptionState → List Event → Type 0
RoomFor s [] = Unit {0}
RoomFor s (e ∷ es) = Room s e × RoomFor (step s e) es

-- The reasons for which an event ends the delivery of a cursor: it is acknowledged, it goes to the
-- dead letters, or retention has dropped its message when a lease is committed.
unfoldable pub ends : SubscriptionState → Event → Cursor → Bool
ends s (leases high floor now limit) c =
    let p = scanned s high floor now limit in member c p.dead || (not (idle p) && leb c floor)
ends s (acks k) c = k == c
ends s (nacks k) c = false
ends s (sets_policy p) c = false

unfoldable pub ended : SubscriptionState → List Event → Cursor → Bool
ended s [] c = false
ended s (e ∷ es) c = ends s e c || ended (step s e) es c

pub step-handled :
    (s : SubscriptionState) (e : Event) (c : Cursor)
    → Room s e
    → handled (step s e) c ≡ (handled s c || ends s e c)
unfolding step ends
step-handled s (leases high floor now limit) c room =
    lease_once-handled s high floor now limit room c
step-handled s (acks k) c room = ack_cursor-handled k c s room
step-handled s (nacks k) c room = nack_cursor-handled k c s ∙ ground arith
step-handled s (sets_policy p) c room = unfold handled in ground arith

-- After any leases, acks, nacks and changes of policy, none of whose sums wraps, a cursor is
-- handled exactly if it was handled before or one of the events was a reason: it was
-- acknowledged, went to the dead letters in a lease, or lay at or below the retention floor of a
-- lease that leased a message or moved one to the dead letters.
pub run-handled :
    (s : SubscriptionState) (es : List Event) (c : Cursor)
    → RoomFor s es
    → handled (run s es) c ≡ (handled s c || ended s es c)
unfolding run ended
run-handled s [] c room = ground arith
run-handled s (e ∷ es) c room =
    run-handled (step s e) es c room.1 ∙ ground (arith, step-handled s e c room.0)

-- After an acknowledgement of a cursor and any further events, none of whose sums wraps, no lease
-- contains the cursor, leased or not at the time of the acknowledgement.
pub ack-not-leased :
    (s : SubscriptionState) (c : Cursor) (es : List Event) (high floor : Cursor) (now limit : ℕ)
    → RoomFor s (acks c ∷ es)
    → Fits (run s (acks c ∷ es)) high floor
    → member c (cursors (scanned (run s (acks c ∷ es)) high floor now limit).leased_out) ≡ false
unfolding ended ends
ack-not-leased s c es high floor now limit room fits =
    let s' = run s (acks c ∷ es) in
    let done : handled s' c ≡ true = run-handled s (acks c ∷ es) c room ∙ ground arith in
    elim (Bool-cases (member c (cursors (scanned s' high floor now limit).leased_out))) [
      | inr out ↦ out
      | inl again ↦
          let (_, open_, _, _) = leased_sound s' high floor now limit fits c again in absurd (cc)
    ]
