-- ===== src/Subscription/Floor.antt =====
-- Where the floor of a subscription stands: at the end of the run of handled cursors.
use ce_pubsub.Prelude.{
  ℕ, zero, suc, ◌+◌, ◌≤◌, ◌<◌, ◌≡◌, ◌↔◌, refl, sym, subst, ◌∙◌, inl, inr, true, false, ◌||◌, List,
  [], ◌∷◌, ◌++◌, arith, dec_le, ltb, length, member, max, Bool-cases, member-append,
}
use ce_pubsub.Prelude.Words.{u64_mod, add_u64, add_u64-eq}
use ce_pubsub.Prelude.Order.{ℕ_order}
use ce_pubsub.Prelude.Map.{keys, has, length-insert-le}
use ce_pubsub.Message.{Cursor}
use ce_pubsub.Subscription.{
  SubscriptionState, fold_in, advance, advance_acked, mark_dead, mark_all_dead, grant_lease,
  grant_leases, raise_floor, commit_lease, ack_cursor, nack_cursor,
}
use ce_pubsub.Subscription.Plan.{scanned, new_floor, handled_after, Plan}
use ce_pubsub.Subscription.Handled.{
  handled, fold_in-lt, acked-fold_in, advance_acked-IsSettled, released, marked,
}
use ce_pubsub.Subscription.Bridge.{bridge-stops}
use ce_pubsub.Subscription.Commit.{committed, lease_once-keeps}
use ce_pubsub.Subscription.Progress.{FloorFits, member-keys, new_floor-ge, committed-handled}
use ce_pubsub.Subscription.Run.{
  Event, leases, acks, nacks, sets_policy, step, run, Room, RoomFor, ended, run-handled,
}

-- The cursor after the floor is not handled.
abbrev pub IsExact : SubscriptionState → Type 0
IsExact s = handled s (suc s.acked) ≡ false

acked-mark_all_dead :
    (s : SubscriptionState) (ds : List Cursor) → (mark_all_dead s ds).acked ≡ s.acked
unfolding mark_dead
acked-mark_all_dead s [] = refl
acked-mark_all_dead s (d ∷ ds) = acked-mark_all_dead (mark_dead s d) ds

acked-grant_leases :
    (s : SubscriptionState) (ls : List (Cursor × ℕ)) → (grant_leases s ls).acked ≡ s.acked
unfolding grant_lease
acked-grant_leases s [] = refl
acked-grant_leases s (l ∷ ls) = acked-grant_leases (grant_lease s l) ls

acked-raise_floor : (n : Cursor) (s : SubscriptionState) → (raise_floor n s).acked ≡ max s.acked n
unfolding raise_floor
acked-raise_floor n s = ground arith

new_floor-open :
    (s : SubscriptionState) (floor : Cursor) (p : Plan)
    → FloorFits s floor p
    → (has (suc (new_floor s floor p)) s.dead ≡ false)
      × (has (suc (new_floor s floor p)) s.acked_set ≡ false)
      × (member (suc (new_floor s floor p)) p.dead ≡ false)
unfolding new_floor handled_after
new_floor-open s floor p room =
    let c = suc (new_floor s floor p) in
    let out = bridge-stops (handled_after s p) (max s.acked floor) room in
    ground (
      arith,
      out,
      member-append c (keys s.dead) (keys s.acked_set ++ p.dead),
      member-append c (keys s.acked_set) p.dead,
      member-keys c s.dead,
      member-keys c s.acked_set,
    )

acked-committed :
    (s : SubscriptionState) (high floor : Cursor) (now limit : ℕ)
    → FloorFits s floor (scanned s high floor now limit)
    → (committed s high floor now limit).acked ≡ new_floor s floor (scanned s high floor now limit)
unfolding committed commit_lease
acked-committed s high floor now limit room =
    let p = scanned s high floor now limit in
    let t = mark_all_dead s p.dead in
    let ge = new_floor-ge s floor p room in
    omega (
      arith,
      acked-raise_floor (new_floor s floor p) (grant_leases t p.leased_stamped),
      acked-grant_leases t p.leased_stamped,
      acked-mark_all_dead s p.dead,
    )

committed-IsExact :
    (s : SubscriptionState) (high floor : Cursor) (now limit : ℕ)
    → FloorFits s floor (scanned s high floor now limit)
    → IsExact (committed s high floor now limit)
committed-IsExact s high floor now limit room =
    let p = scanned s high floor now limit in
    let n = new_floor s floor p in
    let ge = new_floor-ge s floor p room in
    let (dead, acked, poison) = new_floor-open s floor p room in
    let after : handled (committed s high floor now limit) (suc n) ≡ false =
      committed-handled s high floor now limit room (suc n)
      ∙ (unfold handled in ground (arith, dead, acked, poison, ge)) in
    subst (λ k. handled (committed s high floor now limit) (suc k) ≡ false)
      (sym (acked-committed s high floor now limit room)) after

-- The loop takes an entry out of a map for each cursor that it passes.
acked-advance :
    (fuel : ℕ) (s : SubscriptionState)
    → s.acked + length s.acked_set + length s.dead + 1 < u64_mod
    → (advance fuel s).acked ≤ s.acked + length s.acked_set + length s.dead
unfolding advance
acked-advance zero s room = omega arith
acked-advance (suc fuel) s room =
    let next = suc s.acked in
    let e : add_u64 s.acked 1 ≡ next = add_u64-eq s.acked 1 (omega arith) ∙ omega arith in
    elim (Bool-cases (has next s.acked_set || has next s.dead)) [
      | inl more ↦
          let lt = fold_in-lt next s more in
          let here = acked-fold_in next s in
          rw (e, more) (omega (arith, acked-advance fuel (fold_in next s) (omega arith)))
      | inr done ↦ rw (e, done) (omega arith)
    ]

advance_acked-IsExact :
    (s : SubscriptionState)
    → s.acked + length s.acked_set + length s.dead + 1 < u64_mod
    → IsExact (advance_acked s)
unfolding advance_acked handled
advance_acked-IsExact s room =
    let t = advance_acked s in
    let below = acked-advance (suc (length s.acked_set + length s.dead)) s room in
    let e : add_u64 t.acked 1 ≡ suc t.acked = add_u64-eq t.acked 1 (omega arith) ∙ omega arith in
    let settled = advance_acked-IsSettled s in ground (arith, rw e at settled)

ack_cursor-IsExact :
    (k : Cursor) (s : SubscriptionState)
    → s.acked + length s.acked_set + length s.dead + 2 < u64_mod
    → IsExact (ack_cursor k s)
unfolding ack_cursor
ack_cursor-IsExact k s room = elim (Bool-cases (ltb s.acked k)) [
  | inl above ↦
      rw above
        (advance_acked-IsExact (marked k s) (omega (arith, length-insert-le k tt s.acked_set)))
  | inr below ↦ rw below (advance_acked-IsExact (released k s) (omega arith))
]

nack_cursor-IsExact : (k : Cursor) (s : SubscriptionState) → IsExact s → IsExact (nack_cursor k s)
unfolding nack_cursor handled
nack_cursor-IsExact k s v = v

step-IsExact : (s : SubscriptionState) (e : Event) → Room s e → IsExact s → IsExact (step s e)
unfolding step
step-IsExact s (leases high floor now limit) room v =
    lease_once-keeps IsExact s high floor now limit v
      (committed-IsExact s high floor now limit room)
step-IsExact s (acks k) room v = ack_cursor-IsExact k s room
step-IsExact s (nacks k) room v = nack_cursor-IsExact k s v
step-IsExact s (sets_policy p) room v = unfold handled in v

run-IsExact :
    (s : SubscriptionState) (es : List Event) → RoomFor s es → IsExact s → IsExact (run s es)
unfolding run
run-IsExact s [] room v = v
run-IsExact s (e ∷ es) room v = run-IsExact (step s e) es room.1 (step-IsExact s e room.0 v)

-- After any leases, acks, nacks and changes of policy, none of whose sums wraps, from a state in
-- which the cursor after the floor is not handled, a cursor is at or below the floor exactly if
-- every cursor up to it was handled before or ended by one of the events.
pub floor_exact :
    (s : SubscriptionState) (es : List Event) (c : Cursor)
    → RoomFor s es
    → IsExact s
    → (c ≤ (run s es).acked) ↔ ((k : Cursor) → k ≤ c → (handled s k || ended s es k) ≡ true)
floor_exact s es c room v = (forth, back)
  where
    forth : c ≤ (run s es).acked → (k : Cursor) → k ≤ c → (handled s k || ended s es k) ≡ true
    forth below k le = sym (run-handled s es k room) ∙ (unfold handled in ground arith)

    back : ((k : Cursor) → k ≤ c → (handled s k || ended s es k) ≡ true) → c ≤ (run s es).acked
    back all = elim (dec_le c (run s es).acked) [
      | yes le ↦ le
      | no above ↦
          let next = suc (run s es).acked in
          let done = run-handled s es next room ∙ all next (omega arith) in
          let open_ = run-IsExact s es room v in absurd (cc)
    ]
