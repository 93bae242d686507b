-- ===== src/Subscription.antt =====
-- src/subscription.rs: durable subscriptions, a state machine that the topic owner drives.
-- A `BTreeMap<Cursor, ()>` is a map into `Unit`, a `Vec` is a list.
pub mod Plan
pub mod Handled
pub mod Scan
pub mod Bridge
pub mod Delivery
pub mod Commit
pub mod Progress
pub mod Run
pub mod Attempts
pub mod Registry
pub mod Drain
pub mod Floor
use ce_pubsub.Prelude.{
  ℕ, zero, suc, ◌+◌, ◌-◌, Bool, true, false, not, ◌&&◌, ◌||◌, Option, none, some, List, [], ◌∷◌,
  ◌++◌, leb, ltb, ◌==◌, if◌then◌else◌, length, member, min, max,
}
use mathlib.Core.Option
use mathlib.Core.List.{foldl}
use ce_pubsub.Prelude.Words.{add_u64, add_u32, saturating_add}
use ce_pubsub.Prelude.Order.{Text, ℕ_order, text_order}
use ce_pubsub.Prelude.Map.{Map, keys, lookup, has, insert, remove, modify, retain}
use ce_pubsub.Prelude.Result.{Result, ok, err}
use ce_pubsub.Message.{Cursor}

abbrev pub max_subscriptions : ℕ
max_subscriptions = 10_000

abbrev pub max_ack_deadline_secs : ℕ
max_ack_deadline_secs = 600

abbrev pub default_ack_deadline_secs : ℕ
default_ack_deadline_secs = 30

abbrev pub default_max_delivery_attempts : ℕ
default_max_delivery_attempts = 5

abbrev pub max_lease_batch : ℕ
max_lease_batch = 1_000

pub record SubscriptionPolicy : Type 0 where
  pub ack_deadline_secs : ℕ
  pub max_delivery_attempts : ℕ

abbrev pub default_policy : SubscriptionPolicy
default_policy = record {
  ack_deadline_secs = default_ack_deadline_secs;
  max_delivery_attempts = default_max_delivery_attempts;
}

pub data PolicyError : Type 0 where
  bad_ack_deadline : ℕ → PolicyError

-- `SubscriptionPolicy::validate`
unfoldable pub validate_policy : SubscriptionPolicy → Result PolicyError (Unit {0})
validate_policy p =
    if p.ack_deadline_secs == 0 || ltb max_ack_deadline_secs p.ack_deadline_secs
    then err (bad_ack_deadline p.ack_deadline_secs)
    else ok tt

pub record Lease : Type 0 where
  pub cursor : Cursor
  pub expires_at : ℕ
  pub attempts : ℕ

pub record SubscriptionState : Type 0 where
  pub acked : Cursor
  pub leases : Map Cursor Lease
  pub attempts : Map Cursor ℕ
  pub dead : Map Cursor (Unit {0})
  pub acked_set : Map Cursor (Unit {0})
  pub policy : SubscriptionPolicy

abbrev pub default_state : SubscriptionState
default_state = record {
  acked = 0;
  leases = [];
  attempts = [];
  dead = [];
  acked_set = [];
  policy = default_policy;
}

-- `outstanding`, `dead_lettered` and `pending_acks`
unfoldable pub outstanding : SubscriptionState → ℕ
outstanding s = length s.leases

unfoldable pub dead_lettered : SubscriptionState → List Cursor
dead_lettered s = keys s.dead

unfoldable pub pending_acks : SubscriptionState → List Cursor
pending_acks s = keys s.acked_set

pub record SubRegistry : Type 0 where
  pub subs : Map Text SubscriptionState

pub record LeaseOutcome : Type 0 where
  pub leased : List (Cursor × ℕ)
  pub dead_lettered : List Cursor

pub data SubOp : Type 0 where
  create : Text → SubscriptionPolicy → SubOp
  delete : Text → SubOp
  apply_lease : Text → List (Cursor × ℕ) → List Cursor → Cursor → SubOp
  ack : Text → Cursor → SubOp
  nack : Text → Cursor → SubOp

-- The body of the loop of `advance_acked`: the short-circuit `||` removes from one map only.
unfoldable pub fold_in : Cursor → SubscriptionState → SubscriptionState
fold_in next s =
    if has next s.acked_set
    then record s { acked_set = remove next s.acked_set; acked = next }
    else record s { dead = remove next s.dead; acked = next }

unfoldable pub advance : ℕ → SubscriptionState → SubscriptionState
advance zero s = s
advance (suc fuel) s =
    let next = add_u64 s.acked 1 in
    let rest = advance fuel (fold_in next s) in
    if has next s.acked_set || has next s.dead then rest else s

-- Each round takes an entry out of one of the two maps.
unfoldable pub advance_acked : SubscriptionState → SubscriptionState
advance_acked s = advance (suc (length s.acked_set + length s.dead)) s

-- The two loops of `ApplyLease`.
unfoldable pub mark_dead : SubscriptionState → Cursor → SubscriptionState
mark_dead s c = record s {
  dead = insert c tt s.dead;
  leases = remove c s.leases;
  attempts = remove c s.attempts;
}

-- `attempts.get(&c).copied().unwrap_or(0) + 1`
unfoldable pub next_attempt : SubscriptionState → Cursor → ℕ
next_attempt s c = add_u32 (Option.get_or (lookup c s.attempts) 0) 1

unfoldable pub grant_lease : SubscriptionState → Cursor × ℕ → SubscriptionState
grant_lease s (c, expires_at) = record s {
  attempts = insert c (next_attempt s c) s.attempts;
  leases =
      insert c (record { cursor = c; expires_at = expires_at; attempts = next_attempt s c })
        s.leases;
}

abbrev pub mark_all_dead : SubscriptionState → List Cursor → SubscriptionState
mark_all_dead s [] = s
mark_all_dead s (c ∷ cs) = mark_all_dead (mark_dead s c) cs

abbrev pub grant_leases : SubscriptionState → List (Cursor × ℕ) → SubscriptionState
grant_leases s [] = s
grant_leases s (l ∷ ls) = grant_leases (grant_lease s l) ls

unfoldable pub raise_floor : Cursor → SubscriptionState → SubscriptionState
raise_floor new_acked s =
    if ltb s.acked new_acked
    then record s {
      acked = new_acked;
      acked_set = retain (λ c. ltb new_acked c) s.acked_set;
      dead = retain (λ c. ltb new_acked c) s.dead;
    }
    else s

-- The arms of `apply` on the subscription that they find.
unfoldable pub commit_lease :
    List (Cursor × ℕ) → List Cursor → Cursor → SubscriptionState → SubscriptionState
commit_lease leased dead new_acked s =
    raise_floor new_acked (grant_leases (mark_all_dead s dead) leased)

unfoldable pub ack_cursor : Cursor → SubscriptionState → SubscriptionState
ack_cursor c s =
    let released = record s { leases = remove c s.leases; attempts = remove c s.attempts } in
    advance_acked
      (if ltb s.acked c then record released { acked_set = insert c tt s.acked_set } else released)

unfoldable pub nack_cursor : Cursor → SubscriptionState → SubscriptionState
nack_cursor c s = record s { leases = modify c (λ l. record l { expires_at = 0 }) s.leases }

-- `SubRegistry::apply`
unfoldable pub apply : SubRegistry → SubOp → SubRegistry
apply r (create name policy) = record r {
  subs =
      insert name (record (Option.get_or (lookup name r.subs) default_state) { policy = policy })
        r.subs;
}
apply r (delete name) = record r { subs = remove name r.subs }
apply r (apply_lease name leased dead new_acked) = record r {
  subs = modify name (commit_lease leased dead new_acked) r.subs;
}
apply r (ack name c) = record r { subs = modify name (ack_cursor c) r.subs }
apply r (nack name c) = record r { subs = modify name (nack_cursor c) r.subs }

unfoldable pub at_capacity : SubRegistry → Text → Bool
at_capacity r name = not (has name r.subs) && leb max_subscriptions (length r.subs)
