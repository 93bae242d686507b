-- ===== src/Owner/Race/Landing.antt =====
-- Overlapping publishes: what holds of each call between its turns, and how an append keeps it.
use ce_pubsub.Prelude.{
  ℕ, suc, ◌+◌, ◌≤◌, ◌<◌, ◌≡◌, ap, subst, ◌∙◌, some, [], ◌∷◌, arith, ◌==◌, Bool, true, false,
  length-append, Bool-cases, inl, inr,
}
use ce_pubsub.Prelude.Words.{u64_mod}
use ce_pubsub.Message.{Cursor, Message}
use ce_pubsub.Log
use ce_pubsub.Log.{TopicLog}
use ce_pubsub.Log.Invariant.{IsWellFormed, next_cursor-eq, apply-IsWellFormed}
use ce_pubsub.Log.Append.{get-append, get-append_old}
use ce_pubsub.Owner.{Owner}
use ce_pubsub.Owner.Sound.{reach}
use ce_pubsub.Owner.Race.{Point, called, stamped, appended, returned, failed, Call, Race, update}

-- The call has appended its message.
abbrev pub has_appended : Point → Bool
has_appended called = false
has_appended stamped = false
has_appended appended = true
has_appended returned = true
has_appended (failed why) = false

-- The call holds a cursor that it has read.
abbrev pub has_cursor : Point → Bool
has_cursor called = false
has_cursor stamped = true
has_cursor appended = true
has_cursor returned = true
has_cursor (failed why) = false

-- The message is in the log at cursor `k`, which is new since `l0`, and not below the cursor that
-- the call holds.
abbrev pub Landed : TopicLog → TopicLog → Message → Call → Cursor → Type 0
Landed l0 l m c k =
    (Log.get l k ≡ some (record m { cursor = k }))
    × (c.msg.cursor ≤ k)
    × (reach l0 < k)
    × (k ≤ reach l)

-- What holds of one call, whose message was `m` at the start.
pub record Fine (l0 l : TopicLog) (m : Message) (c : Call) (k : Cursor) : Type 0 where
  pub kept : record (c.msg) { cursor = 0 } ≡ record m { cursor = 0 }
  pub behind : has_cursor c.point ≡ true → c.msg.cursor ≤ suc (reach l)
  pub landed : has_appended c.point ≡ true → Landed l0 l m c k

pub record Inv (l0 : TopicLog) (ms : ℕ → Message) (r : Race) (place : ℕ → Cursor) : Type 0 where
  pub log : IsWellFormed r.owner.log
  pub longer : reach l0 ≤ reach r.owner.log
  pub each : (i : ℕ) → Fine l0 r.owner.log (ms i) (r.calls i) (place i)
  pub apart :
      (i j : ℕ)
      → has_appended (r.calls i).point ≡ true
      → has_appended (r.calls j).point ≡ true
      → place i ≡ place j
      → i ≡ j

pub reach-append : (l : TopicLog) (m : Message) → reach (Log.apply l (Log.append m)) ≡ suc (reach l)
unfolding Log.apply
reach-append l m =
    omega (arith, length-append l.messages (record m { cursor = Log.next_cursor l } ∷ []))

module _ {l0 l : TopicLog} (v : IsWellFormed l) (room : reach l + 1 < u64_mod) where
  -- An append leaves what other calls have done.
  Fine-append :
      (x m : Message) (c : Call) (k : Cursor)
      → Fine l0 l m c k
      → Fine l0 (Log.apply l (Log.append x)) m c k
  Fine-append x m c k f =
      let more = reach-append l x in
      record {
        kept = f.kept;
        behind = λ h. let b = f.behind h in omega arith;
        landed = λ h.
            let (found, later, new, within) = f.landed h in
            (get-append_old x k v room found, later, new, omega arith);
      }

  -- The call that appends lands at the next cursor.
  pub Fine-landed :
      (m : Message) (c : Call) (k : Cursor)
      → reach l0 ≤ reach l
      → Fine l0 l m c k
      → c.point ≡ stamped
      → Fine l0
          (Log.apply l (Log.append c.msg))
          m
          (record { msg = c.msg; point = appended })
          (suc (reach l))
  Fine-landed m c k longer f at =
      let more = reach-append l c.msg in
      let next = next_cursor-eq v room in
      let b = f.behind (ground (arith, at)) in
      record {
        kept = f.kept;
        behind = λ h. omega (arith, b, more);
        landed = λ h. (
          rw next at (get-append c.msg v room)
              ∙ ap (λ (x : Message). some (record x { cursor = suc (reach l) })) f.kept,
          b,
          omega arith,
          omega (arith, more),
        );
      }

each-update {ℓ κ} :
    {A : Type ℓ} (P : ℕ → A → Type κ) (family : ℕ → A) (i : ℕ) (a : A)
    → P i a
    → ((j : ℕ) → P j (family j))
    → (j : ℕ) → P j (update family i a j)
each-update P family i a new old j = elim (Bool-cases (i == j)) [
  | inl e ↦ let same : i ≡ j = ground arith in rw e (subst (λ n. P n a) same new)
  | inr e ↦ rw e (old j)
]

module _ {l0 : TopicLog} {ms : ℕ → Message} {r : Race} {place : ℕ → Cursor}
    (inv : Inv l0 ms r place) (i : ℕ) where
  -- A turn that leaves the log, and does not append.
  pub Inv-quiet :
      (o : Owner) (c : Call)
      → o.log ≡ r.owner.log
      → Fine l0 r.owner.log (ms i) c (place i)
      → (has_appended c.point ≡ true → has_appended (r.calls i).point ≡ true)
      → Inv l0 ms (record { owner = o; calls = update r.calls i c }) place
  Inv-quiet o c log f before = record {
    log = rw log inv.log;
    longer = rw log inv.longer;
    each =
        rw log (each-update (λ j c. Fine l0 r.owner.log (ms j) c (place j)) r.calls i c f inv.each);
    apart = λ j k hj hk. inv.apart j k (was j hj) (was k hk);
  }
    where
      was :
          (j : ℕ)
          → has_appended (update r.calls i c j).point ≡ true
          → has_appended (r.calls j).point ≡ true
      was =
          each-update (λ j c. has_appended c.point ≡ true → has_appended (r.calls j).point ≡ true)
            r.calls i c before (λ j h. h)

  -- A turn after which the log is longer by a message.
  pub Inv-append :
      (o : Owner) (c : Call) (k : Cursor) (x : Message)
      → reach r.owner.log + 1 < u64_mod
      → o.log ≡ Log.apply r.owner.log (Log.append x)
      → Fine l0 (Log.apply r.owner.log (Log.append x)) (ms i) c k
      → (has_appended c.point ≡ true → k ≡ suc (reach r.owner.log))
      → Inv l0 ms (record { owner = o; calls = update r.calls i c }) (update place i k)
  Inv-append o c k x room log f next = record {
    log = rw log (apply-IsWellFormed (Log.append x) inv.log room);
    longer = rw log (let b = inv.longer in omega (arith, reach-append r.owner.log x));
    each = rw log fine;
    apart = λ j n. elim (Bool-cases (i == j)) [
      | inl ej ↦ elim (Bool-cases (i == n)) [
        | inl en ↦ λ hj hn e. ground arith
        | inr en ↦ λ hj hn e.
            let (_, _, _, within) = (inv.each n).landed (rw en at hn) in
            absurd (omega (arith, next (rw ej at hj), within, rw (ej, en) at e))
      ]
      | inr ej ↦ elim (Bool-cases (i == n)) [
        | inl en ↦ λ hj hn e.
            let (_, _, _, within) = (inv.each j).landed (rw ej at hj) in
            absurd (omega (arith, next (rw en at hn), within, rw (ej, en) at e))
        | inr en ↦ λ hj hn e. inv.apart j n (rw ej at hj) (rw en at hn) (rw (ej, en) at e)
      ]
    ];
  }
    where
      fine :
          (j : ℕ)
          → Fine l0
              (Log.apply r.owner.log (Log.append x))
              (ms j)
              (update r.calls i c j)
              (update place i k j)
      fine j = elim (Bool-cases (i == j)) [
        | inl e ↦
            let same : i ≡ j = ground arith in
            rw e (subst (λ n. Fine l0 (Log.apply r.owner.log (Log.append x)) (ms n) c k) same f)
        | inr e ↦ rw e (Fine-append inv.log room x (ms j) (r.calls j) (place j) (inv.each j))
      ]
