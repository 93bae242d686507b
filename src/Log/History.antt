-- ===== src/Log/History.antt =====
-- The log against its history: the list of every message ever appended, and how many of them
-- retention has dropped.
use ce_pubsub.Prelude.{
  ℕ, zero, suc, ◌+◌, ◌-◌, ◌≤◌, ◌<◌, ◌≡◌, refl, ap, ◌∙◌, sym, none, List, [], ◌∷◌, ◌++◌, arith, ltb,
  leb, dec_lt, subst, if◌then◌else◌, length, get_elem?, drop, length-append, length-drop, min, max,
}
use ce_pubsub.Prelude.Words.{u64_mod}
use ce_pubsub.Message.{Cursor, Message}
use ce_pubsub.Log.{TopicLog, LogOp, append, prune_to, empty_log, next_cursor, apply, get, replay}
use ce_pubsub.Log.Numbering.{Numbered, Numbered-snoc, Numbered-drop, drop-nil, get_elem?-drop}
use ce_pubsub.Log.Lookup.{get-position}
use ce_pubsub.Log.Invariant.{IsWellFormed, next_cursor-eq, floor-prune_to, messages-prune_to}

pub record History : Type 0 where
  pub published : List Message
  pub pruned : ℕ

abbrev pub start : History
start = record { published = []; pruned = 0 }

-- Message number `n` carries cursor `n`, whatever its proposer wrote there.
pub record_op : History → LogOp → History
record_op h (append m) = record h {
  published = h.published ++ record m { cursor = suc (length h.published) } ∷ [];
}
record_op h (prune_to up_to) = record h { pruned = max h.pruned (min up_to (length h.published)) }

abbrev pub record_all : History → List LogOp → History
record_all h [] = h
record_all h (op ∷ ops) = record_all (record_op h op) ops

-- The log that a history leaves.
abbrev pub view : History → TopicLog
view h = record { messages = drop h.pruned h.published; floor = h.pruned }

pub record IsSound (h : History) : Type 0 where
  pub numbered : Numbered 0 h.published
  pub within : h.pruned ≤ length h.published

pub record_op-IsSound : (h : History) (op : LogOp) → IsSound h → IsSound (record_op h op)
unfolding record_op
record_op-IsSound h (append m) v = record {
  numbered =
      Numbered-snoc 0 h.published (record m { cursor = suc (length h.published) }) v.numbered
        (omega arith);
  within =
      let n = v.within in
      omega
        (arith, length-append h.published (record m { cursor = suc (length h.published) } ∷ []));
}
record_op-IsSound h (prune_to up_to) v = record {
  numbered = v.numbered;
  within = let n = v.within in omega arith;
}

drop-snoc {ℓ} :
    {A : Type ℓ} (k : ℕ) (xs : List A) (x : A)
    → k ≤ length xs
    → drop k (xs ++ x ∷ []) ≡ drop k xs ++ x ∷ []
drop-snoc zero xs x h = refl
drop-snoc (suc k) [] x h = absurd (omega arith)
drop-snoc (suc k) (y ∷ xs) x h = drop-snoc k xs x (omega arith)

pub drop-drop {ℓ} : {A : Type ℓ} (j k : ℕ) (xs : List A) → drop j (drop k xs) ≡ drop (k + j) xs
drop-drop j zero xs = ap (λ i. drop i xs) (omega arith)
drop-drop j (suc k) [] = drop-nil j ∙ sym (drop-nil (suc k + j))
drop-drop j (suc k) (x ∷ xs) =
    let e : suc k + j ≡ suc (k + j) = omega arith in rw e (drop-drop j k xs)

drop-min {ℓ} : {A : Type ℓ} (k : ℕ) (xs : List A) → drop (min k (length xs)) xs ≡ drop k xs
drop-min zero xs = let e : min 0 (length xs) ≡ 0 = omega arith in ap (λ i. drop i xs) e
drop-min (suc k) [] = drop-nil (min (suc k) 0)
drop-min (suc k) (x ∷ xs) =
    let e : min (suc k) (suc (length xs)) ≡ suc (min k (length xs)) = omega arith in
    rw e (drop-min k xs)

drop-prune {ℓ} :
    {A : Type ℓ} (f up : ℕ) (xs : List A)
    → f ≤ length xs
    → drop (up - f) (drop f xs) ≡ drop (max f (min up (length xs))) xs
drop-prune f up xs h =
    let e : f + (up - f) ≡ max f up = omega arith in
    let k : min (max f up) (length xs) ≡ max f (min up (length xs)) = omega arith in
    drop-drop (up - f) f xs
    ∙ ap (λ i. drop i xs) e
    ∙ sym (drop-min (max f up) xs)
    ∙ ap (λ i. drop i xs) k

pub view-IsWellFormed :
    (h : History) → IsSound h → length h.published < u64_mod → IsWellFormed (view h)
view-IsWellFormed h v room =
    let within = v.within in
    let cut = length-drop h.pruned h.published in
    record {
      numbered =
          subst (λ i. Numbered i (drop h.pruned h.published)) (omega arith)
            (Numbered-drop 0 h.pruned h.published v.numbered);
      fits = omega arith;
    }

-- One operation on the log is the same operation on its history.
pub apply-view :
    (h : History) (op : LogOp)
    → IsSound h
    → length h.published + 1 < u64_mod
    → apply (view h) op ≡ view (record_op h op)
unfolding record_op
apply-view h (append m) v room =
    let within = v.within in
    let cut = length-drop h.pruned h.published in
    let next : next_cursor (view h) ≡ suc (length h.published) =
      next_cursor-eq (view-IsWellFormed h v (omega arith)) (omega arith) ∙ omega arith in
    unfold apply in
    rw next (
      ground
        (arith, drop-snoc h.pruned h.published (record m { cursor = suc (length h.published) })))
apply-view h (prune_to up_to) v room =
    let within = v.within in
    let cut = length-drop h.pruned h.published in
    let fine = view-IsWellFormed h v (omega arith) in
    ground (
      arith,
      messages-prune_to fine up_to ∙ drop-prune h.pruned up_to h.published within,
      floor-prune_to fine up_to,
    )

length-record_op :
    (h : History) (op : LogOp) → length (record_op h op).published ≤ suc (length h.published)
unfolding record_op
length-record_op h (append m) =
    omega (arith, length-append h.published (record m { cursor = suc (length h.published) } ∷ []))
length-record_op h (prune_to up_to) = omega arith

replay-view :
    (h : History) (ops : List LogOp)
    → IsSound h
    → length h.published + length ops < u64_mod
    → (replay (view h) ops ≡ view (record_all h ops))
      × IsSound (record_all h ops)
      × (length (record_all h ops).published < u64_mod)
replay-view h [] v room = (refl, v, omega arith)
replay-view h (op ∷ ops) v room =
    let n = length-record_op h op in
    rw (apply-view h op v (omega arith))
      (replay-view (record_op h op) ops (record_op-IsSound h op v) (omega arith))

-- A replica that replays fewer than 2 ^ 64 operations on an empty log holds exactly the unpruned
-- part of the history they describe, and its log is well formed.
pub replay-history :
    (ops : List LogOp)
    → length ops < u64_mod
    → (replay empty_log ops ≡ view (record_all start ops)) × IsWellFormed (replay empty_log ops)
replay-history ops room =
    let (e, v, n) =
      replay-view start ops (record { numbered = tt; within = omega arith }) (omega arith) in
    (e, rw e (view-IsWellFormed (record_all start ops) v n))

position {ℓ} :
    {A : Type ℓ} (f c : ℕ) (xs : List A)
    → (if leb (suc c) f then none else get_elem? xs (f + (suc c - f - 1)))
      ≡ (if ltb c f then none else get_elem? xs c)
position f c xs = elim (dec_lt c f) [
  | yes p ↦ ground arith
  | no p ↦ let e : f + (suc c - f - 1) ≡ c = omega arith in rw e (ground arith)
]

-- After fewer than 2 ^ 64 operations on an empty log, a read by cursor returns the message
-- published under that number, and nothing if that was pruned.
pub get-history :
    (ops : List LogOp) (c : Cursor)
    → length ops < u64_mod
    → let h = record_all start ops in
      get (replay empty_log ops) (suc c)
      ≡ (if ltb c h.pruned then none else get_elem? h.published c)
get-history ops c room =
    let h = record_all start ops in
    let (e, v) = replay-history ops room in
    let fine : IsWellFormed (view h) = rw e at v in
    rw (e, get-position (suc c) fine, get_elem?-drop h.pruned (suc c - h.pruned - 1) h.published)
      (position h.pruned c h.published)
