-- ===== src/Subscription/Plan.antt =====
-- src/subscription.rs: `plan_lease`, the pure planner of a lease.
use ce_pubsub.Prelude.{
  ℕ, zero, suc, ◌-◌, Bool, not, false, ◌&&◌, ◌||◌, Option, none, some, List, [], ◌∷◌, ◌++◌, leb,
  ltb, ◌==◌, if◌then◌else◌, length, member, min, max,
}
use ce_pubsub.Prelude.Words.{add_u64, saturating_add}
use ce_pubsub.Prelude.Order.{Text, ℕ_order, text_order}
use ce_pubsub.Prelude.Map.{keys, lookup, has}
use ce_pubsub.Message.{Cursor}
use ce_pubsub.Subscription.{
  SubscriptionState, SubRegistry, SubOp, apply_lease, LeaseOutcome, next_attempt, max_lease_batch,
  max_ack_deadline_secs,
}

-- The three vectors that the scan fills.
pub record Plan : Type 0 where
  pub leased_stamped : List (Cursor × ℕ)
  pub leased_out : List (Cursor × ℕ)
  pub dead : List Cursor

unfoldable pub leased_unexpired : SubscriptionState → ℕ → Cursor → Bool
leased_unexpired s now c = elim (lookup c s.leases) [ none ↦ false | some l ↦ ltb now l.expires_at ]

-- What makes the scan pass a cursor by.
unfoldable pub skipped : SubscriptionState → ℕ → Cursor → Bool
unfolding leased_unexpired
skipped s now c = leased_unexpired s now c || has c s.dead || has c s.acked_set

unfoldable pub exhausted : SubscriptionState → Cursor → Bool
exhausted s c =
    not (s.policy.max_delivery_attempts == 0)
    && ltb s.policy.max_delivery_attempts (next_attempt s c)

-- The body of the scan, without `c += 1`.
unfoldable pub visit : SubscriptionState → ℕ → ℕ → Cursor → Plan → Plan
visit s now expires_at c p =
    if skipped s now c
    then p
    else if exhausted s c
    then record p { dead = p.dead ++ c ∷ [] }
    else record p {
      leased_stamped = p.leased_stamped ++ (c, expires_at) ∷ [];
      leased_out = p.leased_out ++ (c, next_attempt s c) ∷ [];
    }

-- `while c <= high && leased_out.len() < cap`
unfoldable pub scan : ℕ → SubscriptionState → ℕ → ℕ → Cursor → ℕ → Cursor → Plan → Plan
scan zero s now expires_at high cap c p = p
scan (suc fuel) s now expires_at high cap c p =
    let rest = scan fuel s now expires_at high cap (add_u64 c 1) (visit s now expires_at c p) in
    if leb c high && ltb (length p.leased_out) cap then rest else p

-- The loop over `handled`: the end of the run of handled cursors above `new_acked`.
unfoldable pub bridge : ℕ → List Cursor → Cursor → Cursor
bridge zero handled new_acked = new_acked
bridge (suc fuel) handled new_acked =
    let rest = bridge fuel handled (add_u64 new_acked 1) in
    if member (add_u64 new_acked 1) handled then rest else new_acked

-- `deadline.clamp(1, MAX_ACK_DEADLINE_SECS)`, added to `now`.
unfoldable pub expiry : SubscriptionState → ℕ → ℕ
expiry s now = saturating_add now (max 1 (min s.policy.ack_deadline_secs max_ack_deadline_secs))

unfoldable pub start : SubscriptionState → Cursor → Cursor
start s floor = add_u64 (max s.acked floor) 1

-- The scan of one call; the fuel is the number of cursors from the start up to `high`.
unfoldable pub scanned : SubscriptionState → Cursor → Cursor → ℕ → ℕ → Plan
scanned s high floor now limit =
    scan (suc high - start s floor) s now (expiry s now) high (min limit max_lease_batch)
      (start s floor) (record { leased_stamped = []; leased_out = []; dead = [] })

-- The elements of the set `handled`.
unfoldable pub handled_after : SubscriptionState → Plan → List Cursor
handled_after s p = keys s.dead ++ (keys s.acked_set ++ p.dead)

unfoldable pub new_floor : SubscriptionState → Cursor → Plan → Cursor
new_floor s floor p =
    bridge (suc (length (handled_after s p))) (handled_after s p) (max s.acked floor)

-- `leased_stamped.is_empty() && dead.is_empty()`
unfoldable pub idle : Plan → Bool
idle p = length p.leased_stamped == 0 && length p.dead == 0

unfoldable pub plan_lease :
    SubRegistry → Text → Cursor → Cursor → ℕ → ℕ → Option (SubOp × LeaseOutcome)
plan_lease r name high floor now limit = elim (lookup name r.subs) [
  | none ↦ none
  | some s ↦
      let p = scanned s high floor now limit in
      if idle p
      then none
      else some (
        apply_lease name p.leased_stamped p.dead (new_floor s floor p),
        record { leased = p.leased_out; dead_lettered = p.dead },
      )
]
