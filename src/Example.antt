-- ===== src/Example.antt =====
-- src/examples/end_to_end.rs: the walkthrough of the log and of a subscription, without the lines
-- that it prints. A panic, of an assertion or of `expect`, is `none`.
use ce_pubsub.Prelude.{
  ℕ, zero, suc, ◌+◌, Bool, true, false, ◌&&◌, ◌==◌, Option, none, some, List, [], ◌∷◌,
}
use ce_pubsub.Prelude.Order.{Text, codes, text_order}
use ce_pubsub.Prelude.Map.{lookup}
use ce_pubsub.Message.{Cursor, Message, new}
use ce_pubsub.Log
use ce_pubsub.Log.{TopicLog, empty_log}
use ce_pubsub.Subscription
use ce_pubsub.Subscription.{SubRegistry, SubscriptionState, SubscriptionPolicy}
use ce_pubsub.Subscription.Plan.{plan_lease}

infixl 5 ◌>>=◌
abbrev pub ◌>>=◌ {ℓ κ} : {A : Type ℓ} {B : Type κ} → Option A → (A → Option B) → Option B
none >>= f = none
some a >>= f = f a

infixl 5 ◌>>◌
abbrev pub ◌>>◌ {ℓ} : {A : Type ℓ} → Option (Unit {0}) → Option A → Option A
none >> p = none
some done >> p = p

-- `assert_eq!`
abbrev pub check : Bool → Option (Unit {0})
check true = some tt
check false = none

abbrev pub workers : Text
workers = codes "workers"

abbrev pub leased_is : List (Cursor × ℕ) → List (Cursor × ℕ) → Bool
leased_is [] [] = true
leased_is [] (y ∷ ys) = false
leased_is (x ∷ xs) [] = false
leased_is (x ∷ xs) (y ∷ ys) = x.0 == y.0 && (x.1 == y.1 && leased_is xs ys)

-- `log.all().first().map(|m| m.cursor) == Some(c)`
abbrev pub first_is : Cursor → List Message → Bool
first_is c [] = false
first_is c (m ∷ ms) = m.cursor == c

-- The loop over the bodies, each with what the clock shows.
unfoldable pub append_bodies : (Text → Text) → TopicLog → List (Text × ℕ) → TopicLog
append_bodies hex_encode l [] = l
append_bodies hex_encode l ((body, now) ∷ bodies) =
    append_bodies hex_encode
      (Log.apply l (Log.append (new hex_encode (Log.next_cursor l) (codes "owner") body now)))
      bodies

-- The loop that times out until the message goes to the dead letters, on fuel for its rounds.
unfoldable pub time_out : ℕ → SubRegistry → Cursor → Cursor → ℕ → Option SubRegistry
time_out zero subs high floor t = none
time_out (suc fuel) subs high floor t = elim (plan_lease subs workers high floor (t + 31) 10) [
  | none ↦ some subs
  | some (op, out) ↦ elim out.dead_lettered [
    | [] ↦ time_out fuel (Subscription.apply subs op) high floor (t + 31)
    | c ∷ cs ↦ some (Subscription.apply subs op)
  ]
]

-- The first part of `main`.
unfoldable pub log_part : (Text → Text) → (ℕ → ℕ) → Option TopicLog
log_part hex_encode clock =
    let log = append_bodies hex_encode empty_log (
      (codes "order-1", clock 1)
      ∷ (codes "order-2", clock 2)
      ∷ (codes "order-3", clock 3)
      ∷ (codes "order-4", clock 4)
      ∷ []) in
    let pruned = Log.apply log (Log.prune_to 2) in
    (check (first_is 3 pruned.messages) >> some pruned)

-- The lease after the deadline, which the program asserts on only where there is one.
unfoldable pub redeliver : SubRegistry → Cursor → Cursor → ℕ → Option SubRegistry
redeliver subs high floor t = elim (plan_lease subs workers high floor t 10) [
  | none ↦ some subs
  | some (op, out) ↦
      (check (leased_is out.leased ((4, 2) ∷ [])) >> some (Subscription.apply subs op))
]

-- The second part, with the fuel for its loop.
unfoldable pub subscription_part : ℕ → Cursor → Cursor → Option SubscriptionState
subscription_part fuel high floor =
    let policy : SubscriptionPolicy = record {
      ack_deadline_secs = 30;
      max_delivery_attempts = 3;
    } in
    let fresh = Subscription.apply (record { subs = [] }) (Subscription.create workers policy) in
    (do
      (op, out) ← plan_lease fresh workers high floor 1_000 10
      check (leased_is out.leased ((3, 1) ∷ (4, 1) ∷ []))
      let acked = Subscription.apply (Subscription.apply fresh op) (Subscription.ack workers 3)
      again ← redeliver acked high floor 1_031
      last ← time_out fuel again high floor 1_031
      st ← lookup workers last.subs
      check (st.acked == high)
      some st)

-- `main`
unfoldable pub main : ℕ → (Text → Text) → (ℕ → ℕ) → Option SubscriptionState
main fuel hex_encode clock =
    log_part hex_encode clock >>= λ log. subscription_part fuel (Log.high_cursor log) log.floor
