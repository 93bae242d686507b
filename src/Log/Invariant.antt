-- ===== src/Log/Invariant.antt =====
-- The invariant of the log: absolute cursors without gaps, from the retention floor upwards.
use ce_pubsub.Prelude.{
  suc, ◌+◌, ◌-◌, ◌≤◌, ◌<◌, ◌≡◌, ◌∙◌, subst, [], ◌∷◌, arith, length, drop, length-append,
  length-drop, min, max,
}
use ce_pubsub.Prelude.Words.{u64_mod, add_u64-eq}
use ce_pubsub.Message.{Cursor, Message}
use ce_pubsub.Log.{TopicLog, LogOp, append, prune_to, high_cursor, next_cursor, after, apply, since}
use ce_pubsub.Log.Numbering.{Numbered, Numbered-snoc, Numbered-drop, after-drop}

pub record IsWellFormed (l : TopicLog) : Type 0 where
  pub numbered : Numbered l.floor l.messages
  pub fits : l.floor + length l.messages < u64_mod

pub high_cursor-eq : {l : TopicLog} → IsWellFormed l → high_cursor l ≡ l.floor + length l.messages
unfolding high_cursor
high_cursor-eq {l} v = add_u64-eq l.floor (length l.messages) v.fits

pub next_cursor-eq :
    {l : TopicLog}
    → IsWellFormed l
    → l.floor + length l.messages + 1 < u64_mod
    → next_cursor l ≡ suc (l.floor + length l.messages)
unfolding next_cursor
next_cursor-eq {l} v room =
    rw (high_cursor-eq v) (add_u64-eq (l.floor + length l.messages) 1 room ∙ omega arith)

module _ {l : TopicLog} (v : IsWellFormed l) where
  after-eq : (from : Cursor) → after from l.messages ≡ drop (from - l.floor) l.messages
  after-eq from = after-drop l.floor from l.messages v.numbered

  -- What a prune leaves, with the wrap-around gone.
  pub floor-prune_to :
      (up_to : Cursor)
      → (apply l (prune_to up_to)).floor ≡ max l.floor (min up_to (l.floor + length l.messages))
  unfolding apply
  floor-prune_to up_to =
      let len : length (after up_to l.messages) ≡ length l.messages - (up_to - l.floor) =
        rw (after-eq up_to) (length-drop (up_to - l.floor) l.messages) in
      let fits = v.fits in
      add_u64-eq l.floor (length l.messages - length (after up_to l.messages)) (omega arith)
      ∙ omega arith

  pub messages-prune_to :
      (up_to : Cursor) → (apply l (prune_to up_to)).messages ≡ drop (up_to - l.floor) l.messages
  unfolding apply
  messages-prune_to up_to = after-eq up_to

  prune_to-IsWellFormed : (up_to : Cursor) → IsWellFormed (apply l (prune_to up_to))
  prune_to-IsWellFormed up_to =
      let k = up_to - l.floor in
      let cut = length-drop k l.messages in
      let fits = v.fits in
      record {
        numbered =
            rw (messages-prune_to up_to, floor-prune_to up_to)
              (subst (λ i. Numbered i (drop k l.messages)) (omega arith)
                (Numbered-drop l.floor k l.messages v.numbered));
        fits = rw (messages-prune_to up_to, floor-prune_to up_to) (omega arith);
      }

  append-IsWellFormed :
      (m : Message) → l.floor + length l.messages + 1 < u64_mod → IsWellFormed (apply l (append m))
  unfolding apply
  append-IsWellFormed m room = record {
    numbered =
        Numbered-snoc l.floor l.messages (record m { cursor = next_cursor l }) v.numbered
          (next_cursor-eq v room);
    fits = omega (arith, length-append l.messages (record m { cursor = next_cursor l } ∷ []));
  }

-- Any operation keeps a log that has a cursor left well formed, whatever cursor a proposed
-- message carries.
pub apply-IsWellFormed :
    {l : TopicLog} (op : LogOp)
    → IsWellFormed l
    → l.floor + length l.messages + 1 < u64_mod
    → IsWellFormed (apply l op)
apply-IsWellFormed (append m) v room = append-IsWellFormed v m room
apply-IsWellFormed (prune_to up_to) v room = prune_to-IsWellFormed v up_to

-- On a well-formed log `since` returns what is left after a cut at the cursor: as many messages
-- as there are cursors above both the cursor and the floor, and, unless the cursor lies above the
-- high one, numbered from there without gaps.
pub since_lem :
    {l : TopicLog} (from : Cursor)
    → IsWellFormed l
    → (since l from ≡ drop (from - l.floor) l.messages)
      × (length (since l from) ≡ l.floor + length l.messages - max l.floor from)
      × (max l.floor from ≤ l.floor + length l.messages
          → Numbered (max l.floor from) (since l from))
unfolding since
since_lem {l} from v =
    let k = from - l.floor in
    let cut = length-drop k l.messages in
    (
      after-eq v from,
      rw (after-eq v from) (omega arith),
      λ inside. rw (after-eq v from) (
          subst (λ i. Numbered i (drop k l.messages)) (omega arith)
            (Numbered-drop l.floor k l.messages v.numbered)),
    )
