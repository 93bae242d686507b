-- ===== src/Subscription/Bridge.antt =====
-- The second loop of `plan_lease`: the new contiguous floor.
use ce_pubsub.Prelude.{
  ℕ, zero, suc, ◌+◌, ◌≤◌, ◌<◌, ◌≡◌, ◌∙◌, inl, inr, true, false, ◌||◌, List, [], ◌∷◌, arith, leb,
  ltb, ℕ_discrete, length, member, select, Bool-cases, length-select-le,
}
use ce_pubsub.Prelude.Words.{u64_mod, add_u64, add_u64-eq}
use ce_pubsub.Message.{Cursor}
use ce_pubsub.Subscription.Plan.{bridge}

next-eq : (n fuel : ℕ) → n + suc fuel < u64_mod → add_u64 n 1 ≡ suc n
next-eq n fuel room = add_u64-eq n 1 (omega arith) ∙ omega arith

pub bridge-ge : (fuel : ℕ) (h : List Cursor) (n : Cursor) → n + fuel < u64_mod → n ≤ bridge fuel h n
unfolding bridge
bridge-ge zero h n room = omega arith
bridge-ge (suc fuel) h n room =
    rw (next-eq n fuel room) (ground (arith, bridge-ge fuel h (suc n) (omega arith)))

covers_step :
    (n c : Cursor) (h : List Cursor)
    → member (suc n) h ≡ true
    → (leb c (suc n) || member c h) ≡ true
    → (leb c n || member c h) ≡ true
covers_step n c h more ih = elim (ℕ_discrete c (suc n)) [
  | yes e ↦ let there : member c h ≡ true = rw e more in ground (arith, there)
  | no ne ↦ ground (arith, ih)
]

-- The floor never jumps over a cursor that is not handled.
pub bridge-covers :
    (fuel : ℕ) (h : List Cursor) (n c : Cursor)
    → n + fuel < u64_mod
    → leb c (bridge fuel h n) ≡ true
    → (leb c n || member c h) ≡ true
unfolding bridge
bridge-covers zero h n c room le = ground arith
bridge-covers (suc fuel) h n c room le = elim (Bool-cases (member (suc n) h)) [
  | inl more ↦
      let below : leb c (bridge fuel h (suc n)) ≡ true = rw (next-eq n fuel room, more) at le in
      let ih = bridge-covers fuel h (suc n) c (omega arith) below in covers_step n c h more ih
  | inr done ↦ let below : leb c n ≡ true = rw (next-eq n fuel room, done) at le in ground arith
]

above : ℕ → List ℕ → ℕ
above n h = length (select (ltb n) h)

above-suc-le : (n : ℕ) (h : List ℕ) → above (suc n) h ≤ above n h
unfolding above
above-suc-le n [] = omega arith
above-suc-le n (x ∷ h) = ground (arith, above-suc-le n h)

above-suc-lt : (n : ℕ) (h : List ℕ) → member (suc n) h ≡ true → above (suc n) h < above n h
unfolding above
above-suc-lt n [] e = cc
above-suc-lt n (x ∷ h) e = ground (arith, above-suc-le n h, above-suc-lt n h)

bridge_ends :
    (fuel : ℕ) (h : List Cursor) (n : Cursor)
    → n + fuel < u64_mod
    → above n h < fuel
    → member (suc (bridge fuel h n)) h ≡ false
unfolding bridge
bridge_ends zero h n room few = absurd (omega arith)
bridge_ends (suc fuel) h n room few = elim (Bool-cases (member (suc n) h)) [
  | inl more ↦
      rw (next-eq n fuel room, more)
        (bridge_ends fuel h (suc n) (omega arith) (omega (arith, above-suc-lt n h more)))
  | inr done ↦ rw (next-eq n fuel room, done) done
]

-- With one round more than there are handled cursors the loop of the lease plan ends by its own
-- test, unless the sum of the floor and these rounds wraps.
pub bridge-stops :
    (h : List Cursor) (n : Cursor)
    → n + suc (length h) < u64_mod
    → member (suc (bridge (suc (length h)) h n)) h ≡ false
unfolding above
bridge-stops h n room =
    bridge_ends (suc (length h)) h n room (omega (arith, length-select-le (ltb n) h))
