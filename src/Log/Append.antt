-- ===== src/Log/Append.antt =====
-- What reads find after an append to the log of src/log.rs.
use ce_pubsub.Prelude.{
  ℕ, suc, zero, ◌+◌, ◌-◌, ◌<◌, ◌≡◌, refl, some, List, [], ◌∷◌, ◌++◌, arith, leb, length, get_elem?,
  Bool-cases, inl, inr,
}
use ce_pubsub.Prelude.Words.{u64_mod}
use ce_pubsub.Message.{Cursor, Message}
use ce_pubsub.Log.{TopicLog, apply, append, get, next_cursor}
use ce_pubsub.Log.Invariant.{IsWellFormed, next_cursor-eq, apply-IsWellFormed}
use ce_pubsub.Log.Lookup.{get-position}

get_elem?-last {ℓ} :
    {A : Type ℓ} (xs : List A) (x : A) → get_elem? (xs ++ x ∷ []) (length xs) ≡ some x
get_elem?-last [] x = refl
get_elem?-last (y ∷ xs) x = get_elem?-last xs x

-- An appended message is found under the cursor it was given.
pub get-append :
    {l : TopicLog} (m : Message)
    → IsWellFormed l
    → l.floor + length l.messages + 1 < u64_mod
    → get (apply l (append m)) (next_cursor l) ≡ some (record m { cursor = next_cursor l })
unfolding apply
get-append {l} m v room =
    let c = next_cursor-eq v room in
    rw (get-position (next_cursor l) (apply-IsWellFormed (append m) v room)) (
      let i : next_cursor l - l.floor - 1 ≡ length l.messages = omega (arith, c) in
      rw (i, get_elem?-last l.messages (record m { cursor = next_cursor l })) (ground (arith, c)))

get_elem?-front {ℓ} :
    {A : Type ℓ} (xs ys : List A) (i : ℕ) {x : A}
    → get_elem? xs i ≡ some x
    → get_elem? (xs ++ ys) i ≡ some x
get_elem?-front [] ys i h = absurd (cc)
get_elem?-front (x ∷ xs) ys zero h = h
get_elem?-front (x ∷ xs) ys (suc i) h = get_elem?-front xs ys i h

-- A message that is found stays where it is when another is appended.
pub get-append_old :
    {l : TopicLog} (m : Message) (c : Cursor) {x : Message}
    → IsWellFormed l
    → l.floor + length l.messages + 1 < u64_mod
    → get l c ≡ some x
    → get (apply l (append m)) c ≡ some x
unfolding apply
get-append_old {l} m c v room h =
    let found = rw (get-position c v) at h in
    let longer = record m { cursor = next_cursor l } ∷ [] in
    elim (Bool-cases (leb c l.floor)) [
      | inl gone ↦ absurd (ground (arith, rw gone at found))
      | inr kept ↦
          rw (get-position c (apply-IsWellFormed (append m) v room), apply, kept)
            (get_elem?-front l.messages longer (c - l.floor - 1) (rw kept at found))
    ]
