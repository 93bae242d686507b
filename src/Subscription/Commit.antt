-- ===== src/Subscription/Commit.antt =====
-- A planned lease once it is applied: who holds a lease, until when, at which attempt.
use ce_pubsub.Prelude.{
  ℕ, zero, suc, ◌<◌, ◌≡◌, refl, sym, ap, subst, ◌∙◌, inl, inr, Bool, true, false, Option, some,
  List, [], ◌∷◌, map, arith, ℕ_discrete, ◌≢◌, member, select, range, Bool-cases, max, length,
  length-map, if◌then◌else◌, member-select, member-range,
}
use ce_pubsub.Prelude.Order.{ℕ_order}
use ce_pubsub.Prelude.Map.{lookup, lookup-insert, lookup-remove}
use ce_pubsub.Message.{Cursor}
use ce_pubsub.Subscription.{
  Lease, SubscriptionState, next_attempt, mark_dead, mark_all_dead, grant_lease, grant_leases,
  raise_floor, commit_lease,
}
use ce_pubsub.Subscription.Plan.{leased_unexpired, expiry, scanned, new_floor, idle}
use ce_pubsub.Subscription.Scan.{due, poison, stamp}
use ce_pubsub.Subscription.Delivery.{cursors, cursors-deliver, leased_sound, Fits, scanned-Outcome}

-- A plan that is applied, whether or not it is idle.
unfoldable pub committed : SubscriptionState → Cursor → Cursor → ℕ → ℕ → SubscriptionState
committed s high floor now limit =
    let p = scanned s high floor now limit in
    commit_lease p.leased_stamped p.dead (new_floor s floor p) s

-- One call: plan a lease, and apply it unless it is idle.
unfoldable pub lease_once : SubscriptionState → Cursor → Cursor → ℕ → ℕ → SubscriptionState
lease_once s high floor now limit =
    if idle (scanned s high floor now limit) then s else committed s high floor now limit

pub lease_once-eq :
    (s : SubscriptionState) (high floor : Cursor) (now limit : ℕ)
    → idle (scanned s high floor now limit) ≡ false
    → lease_once s high floor now limit ≡ committed s high floor now limit
unfolding lease_once
lease_once-eq s high floor now limit busy = rw (busy, lease_once) refl

pub lease_once-idle :
    (s : SubscriptionState) (high floor : Cursor) (now limit : ℕ)
    → idle (scanned s high floor now limit) ≡ true
    → lease_once s high floor now limit ≡ s
unfolding lease_once
lease_once-idle s high floor now limit still = rw (still, lease_once) refl

-- What holds before a call and of the committed plan holds after the call.
pub lease_once-keeps :
    (P : SubscriptionState → Type 0) (s : SubscriptionState) (high floor : Cursor) (now limit : ℕ)
    → P s
    → P (committed s high floor now limit)
    → P (lease_once s high floor now limit)
lease_once-keeps P s high floor now limit old new =
    elim (Bool-cases (idle (scanned s high floor now limit))) [
      | inl still ↦ rw (lease_once-idle s high floor now limit still) old
      | inr busy ↦ rw (lease_once-eq s high floor now limit busy) new
    ]

-- The entries of one cursor.
abbrev pub Entries : SubscriptionState → Cursor → Option Lease → Option ℕ → Type 0
Entries s c lease attempts = (lookup c s.leases ≡ lease) × (lookup c s.attempts ≡ attempts)

pub mark_all_dead-Entries :
    (s : SubscriptionState) (ds : List Cursor) (c : Cursor)
    → member c ds ≡ false
    → Entries (mark_all_dead s ds) c (lookup c s.leases) (lookup c s.attempts)
unfolding mark_dead
mark_all_dead-Entries s [] c out = (refl, refl)
mark_all_dead-Entries s (d ∷ ds) c out = ground (
  arith,
  mark_all_dead-Entries (mark_dead s d) ds c,
  lookup-remove d c s.leases,
  lookup-remove d c s.attempts,
)

pub grant_leases_other :
    (s : SubscriptionState) (ls : List (Cursor × ℕ)) (c : Cursor)
    → member c (cursors ls) ≡ false
    → Entries (grant_leases s ls) c (lookup c s.leases) (lookup c s.attempts)
unfolding grant_lease
grant_leases_other s [] c out = (refl, refl)
grant_leases_other s ((d, e) ∷ ls) c out = ground (
  arith,
  grant_leases_other (grant_lease s (d, e)) ls c,
  lookup-insert d c (record { cursor = d; expires_at = e; attempts = next_attempt s d }) s.leases,
  lookup-insert d c (next_attempt s d) s.attempts,
)

-- The lease of a cursor that is granted once.
abbrev pub granted : SubscriptionState → ℕ → Cursor → Lease
granted s e c = record { cursor = c; expires_at = e; attempts = next_attempt s c }

pub cursors-stamp : (e : ℕ) (cs : List Cursor) → cursors (map (stamp e) cs) ≡ cs
cursors-stamp e [] = refl
cursors-stamp e (c ∷ cs) = ap (◌∷◌ c) (cursors-stamp e cs)

grant_lease_self :
    (s : SubscriptionState) (e : ℕ) (c : Cursor)
    → Entries (grant_lease s (c, e)) c (some (granted s e c)) (some (next_attempt s c))
unfolding grant_lease
grant_lease_self s e c = ground (
  arith,
  lookup-insert c c (granted s e c) s.leases,
  lookup-insert c c (next_attempt s c) s.attempts,
)

next_attempt-grant_lease :
    (s : SubscriptionState) (e : ℕ) (d c : Cursor)
    → d ≢ c
    → next_attempt (grant_lease s (d, e)) c ≡ next_attempt s c
unfolding grant_lease next_attempt
next_attempt-grant_lease s e d c ne =
    ground (arith, lookup-insert d c (next_attempt s d) s.attempts)

grant_leases_self :
    (s : SubscriptionState) (e : ℕ) (p : Cursor → Bool) (from n : ℕ) (c : Cursor)
    → member c (select p (range from n)) ≡ true
    → Entries
        (grant_leases s (map (stamp e) (select p (range from n))))
        c
        (some (granted s e c))
        (some (next_attempt s c))
grant_leases_self s e p from zero c inside = absurd (cc)
grant_leases_self s e p from (suc n) c inside = elim (Bool-cases (p from)) [
  | inr out ↦ rw out (grant_leases_self s e p (suc from) n c (rw out at inside))
  | inl due_ ↦
      let rest = select p (range (suc from) n) in
      let s' = grant_lease s (from, e) in
      elim (ℕ_discrete from c) [
        | yes here ↦
            let gone : member c (cursors (map (stamp e) rest)) ≡ false =
              rw
                (
                  cursors-stamp e rest,
                  member-select c p (range (suc from) n),
                  member-range c (suc from) n,
                )
                (ground arith) in
            let (l, a) = grant_leases_other s' (map (stamp e) rest) c gone in
            let (l', a') = grant_lease_self s e c in rw due_ (l ∙ rw here l', a ∙ rw here a')
        | no ne ↦
            let later : member c rest ≡ true = ground (arith, rw due_ at inside) in
            rw due_ (
              subst
                (λ (a : ℕ).
                  Entries (grant_leases s' (map (stamp e) rest)) c
                    (some (record { cursor = c; expires_at = e; attempts = a })) (some a))
                (next_attempt-grant_lease s e from c ne)
                (grant_leases_self s' e p (suc from) n c later))
      ]
]

pub raise_floor-Entries :
    (n c : Cursor) (s : SubscriptionState)
    → Entries (raise_floor n s) c (lookup c s.leases) (lookup c s.attempts)
unfolding raise_floor
raise_floor-Entries n c s = ground arith

next_attempt-eq :
    (s t : SubscriptionState) (c : Cursor)
    → lookup c t.attempts ≡ lookup c s.attempts
    → next_attempt t c ≡ next_attempt s c
unfolding next_attempt
next_attempt-eq s t c e = rw e refl

due-not-poison :
    (s : SubscriptionState) (now : ℕ) (c : Cursor) → due s now c ≡ true → poison s now c ≡ false
unfolding due poison
due-not-poison s now c h = ground arith

inside_length : (c : Cursor) (cs : List Cursor) → member c cs ≡ true → 0 < length cs
inside_length c [] h = absurd (cc)
inside_length c (x ∷ cs) h = omega arith

module _ (s : SubscriptionState) (high floor : Cursor) (now limit : ℕ)
    (fits : Fits s high floor) where
  committed-Entries :
      (c : Cursor)
      → member c (cursors (scanned s high floor now limit).leased_out) ≡ true
      → Entries
          (committed s high floor now limit)
          c
          (some (granted s (expiry s now) c))
          (some (next_attempt s c))
  unfolding committed commit_lease
  committed-Entries c h =
      let p = scanned s high floor now limit in
      let from = suc (max s.acked floor) in
      let (n, le, out, stamped, dead, stop, most) = scanned-Outcome s high floor now limit fits in
      let picked = select (due s now) (range from n) in
      let inside : member c picked ≡ true = rw (out, cursors-deliver s picked) at h in
      let is_due : due s now c ≡ true =
        ground (arith, inside, member-select c (due s now) (range from n)) in
      let alive : member c p.dead ≡ false =
        rw (dead, member-select c (poison s now) (range from n), due-not-poison s now c is_due)
          refl in
      let s' = mark_all_dead s p.dead in
      let (l, a) = mark_all_dead-Entries s p.dead c alive in
      let e = next_attempt-eq s s' c a in
      let t = grant_leases s' p.leased_stamped in
      let (l'', a'') = raise_floor-Entries (new_floor s floor p) c t in
      let both =
        subst
          (λ ls.
            Entries (grant_leases s' ls) c (some (granted s' (expiry s now) c))
              (some (next_attempt s' c)))
          (sym stamped) (grant_leases_self s' (expiry s now) (due s now) from n c inside) in
      (cc (l'', both.0, e), cc (a'', both.1, e))

  -- A plan that leases is not idle.
  busy :
      (c : Cursor)
      → member c (cursors (scanned s high floor now limit).leased_out) ≡ true
      → idle (scanned s high floor now limit) ≡ false
  unfolding idle
  busy c h =
      let p = scanned s high floor now limit in
      let from = suc (max s.acked floor) in
      let (n, le, out, stamped, _, _, _) = scanned-Outcome s high floor now limit fits in
      let picked = select (due s now) (range from n) in
      let inside : member c picked ≡ true = rw (out, cursors-deliver s picked) at h in
      rw stamped
        (ground (arith, inside_length c picked inside, length-map picked (stamp (expiry s now))))

  -- A cursor that the plan leases is leased until the deadline, at the announced attempt.
  pub lease_once-Entries :
      (c : Cursor)
      → member c (cursors (scanned s high floor now limit).leased_out) ≡ true
      → Entries
          (lease_once s high floor now limit)
          c
          (some (granted s (expiry s now) c))
          (some (next_attempt s c))
  lease_once-Entries c h =
      rw (lease_once-eq s high floor now limit (busy c h)) (committed-Entries c h)

  -- Where no sum wraps, a leased cursor is not leased again by a next call before the deadline of
  -- its lease, whatever floor, high cursor and limit that call has.
  pub no_double_lease :
      (c high' floor' : Cursor) (later limit' : ℕ)
      → member c (cursors (scanned s high floor now limit).leased_out) ≡ true
      → later < expiry s now
      → Fits (lease_once s high floor now limit) high' floor'
      → member c (
          cursors
            (scanned (lease_once s high floor now limit) high' floor' later limit').leased_out)
        ≡ false
  unfolding leased_unexpired
  no_double_lease c high' floor' later limit' h early fits' =
      let s' = lease_once s high floor now limit in
      let (l, _) = lease_once-Entries c h in
      elim (Bool-cases (member c (cursors (scanned s' high' floor' later limit').leased_out))) [
        | inr out ↦ out
        | inl again ↦
            let (_, _, free, _) = leased_sound s' high' floor' later limit' fits' c again in
            absurd (ground (arith, free, l))
      ]
