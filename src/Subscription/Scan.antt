-- ===== src/Subscription/Scan.antt =====
-- The scan of `plan_lease` against a filter over a range of cursors.
use ce_pubsub.Prelude.{
  ℕ, zero, suc, ◌+◌, ◌≤◌, ◌<◌, ◌≡◌, refl, ◌∙◌, inl, inr, ◌⊎◌, Bool, true, not, ◌&&◌, List, [], ◌∷◌,
  ◌++◌, map, arith, leb, ltb, length, select, range, Bool-cases, ltb→lt, ltb_false→le, le→leb, max,
  length-append,
}
use mathlib.Core.List.{append-nil, append_assoc}
use ce_pubsub.Prelude.Words.{u64_mod, add_u64, add_u64-eq}
use ce_pubsub.Message.{Cursor}
use ce_pubsub.Subscription.{SubscriptionState, next_attempt}
use ce_pubsub.Subscription.Plan.{Plan, skipped, exhausted, visit, scan}

-- What the scan leases, and what it moves to the dead letters.
unfoldable pub due : SubscriptionState → ℕ → Cursor → Bool
due s now c = not (skipped s now c) && not (exhausted s c)

unfoldable pub poison : SubscriptionState → ℕ → Cursor → Bool
poison s now c = not (skipped s now c) && exhausted s c

abbrev pub deliver : SubscriptionState → Cursor → Cursor × ℕ
deliver s c = (c, next_attempt s c)

abbrev pub stamp : ℕ → Cursor → Cursor × ℕ
stamp expires_at c = (c, expires_at)

-- A plan with the outcome of some cursors behind what it holds.
abbrev pub extended : SubscriptionState → ℕ → ℕ → List Cursor → Plan → Plan
extended s now expires_at cs p = record {
  leased_stamped = p.leased_stamped ++ map (stamp expires_at) (select (due s now) cs);
  leased_out = p.leased_out ++ map (deliver s) (select (due s now) cs);
  dead = p.dead ++ select (poison s now) cs;
}

extended-nil :
    (s : SubscriptionState) (now expires_at : ℕ) (p : Plan) → p ≡ extended s now expires_at [] p
extended-nil s now expires_at p =
    ground (arith, append-nil p.leased_stamped, append-nil p.leased_out, append-nil p.dead)

extended-visit :
    (s : SubscriptionState) (now expires_at : ℕ) (c : Cursor) (cs : List Cursor) (p : Plan)
    → extended s now expires_at cs (visit s now expires_at c p)
      ≡ extended s now expires_at (c ∷ cs) p
unfolding visit due poison
extended-visit s now expires_at c cs p = elim (Bool-cases (skipped s now c)) [
  | inl skip ↦ rw skip refl
  | inr take ↦ elim (Bool-cases (exhausted s c)) [
    | inl worn ↦
        rw (take, worn) (ground (arith, append_assoc p.dead (c ∷ []) (select (poison s now) cs)))
    | inr fresh ↦
        rw (take, fresh)
          (ground (
            arith,
            append_assoc p.leased_stamped (stamp expires_at c ∷ [])
                (map (stamp expires_at) (select (due s now) cs)),
            append_assoc p.leased_out (deliver s c ∷ []) (map (deliver s) (select (due s now) cs)),
          ))
  ]
]

length-visit :
    (s : SubscriptionState) (now expires_at : ℕ) (c : Cursor) (p : Plan)
    → length (visit s now expires_at c p).leased_out ≤ suc (length p.leased_out)
unfolding visit
length-visit s now expires_at c p = ground (arith, length-append p.leased_out (deliver s c ∷ []))

-- The scan visits `n` cursors in a row, and stops at `high` or when the batch is full.
abbrev pub Scans : SubscriptionState → ℕ → ℕ → ℕ → ℕ → Cursor → Plan → Plan → Type 0
Scans s now expires_at cap fuel c p q =
    (n : ℕ) × (n ≤ fuel)
    × (q ≡ extended s now expires_at (range c n) p)
    × ((n ≡ fuel) ⊎ (cap ≤ length q.leased_out))
    × (length q.leased_out ≤ max cap (length p.leased_out))

pub scan_lem :
    (fuel : ℕ) (s : SubscriptionState) (now expires_at high cap : ℕ) (c : Cursor) (p : Plan)
    → c + fuel ≤ max c (suc high)
    → suc high < u64_mod
    → Scans s now expires_at cap fuel c p (scan fuel s now expires_at high cap c p)
unfolding scan
scan_lem zero s now expires_at high cap c p inside room =
    (0, omega arith, extended-nil s now expires_at p, inl refl, omega arith)
scan_lem (suc fuel) s now expires_at high cap c p inside room =
    let e : add_u64 c 1 ≡ suc c = add_u64-eq c 1 (omega arith) ∙ omega arith in
    let here : leb c high ≡ true = le→leb c high (omega arith) in
    elim (Bool-cases (ltb (length p.leased_out) cap)) [
      | inl more ↦
          let p' = visit s now expires_at c p in
          let (n, le, q, stop, most) =
            scan_lem fuel s now expires_at high cap (suc c) p' (omega arith) room in
          let one = length-visit s now expires_at c p in
          let lt = ltb→lt (length p.leased_out) cap more in
          rw (here, more, e)
            (
              suc n,
              omega arith,
              q ∙ extended-visit s now expires_at c (range (suc c) n) p,
              ground arith,
              omega arith,
            )
      | inr full ↦
          let le = ltb_false→le (length p.leased_out) cap full in
          rw (here, full) (0, omega arith, extended-nil s now expires_at p, inr le, omega arith)
    ]
