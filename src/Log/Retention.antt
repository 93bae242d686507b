-- ===== src/Log/Retention.antt =====
-- What a prune does to reads.
use ce_pubsub.Prelude.{
  ◌+◌, ◌-◌, ◌<◌, ◌≡◌, none, arith, leb, if◌then◌else◌, length, max, min, dec_le,
}
use ce_pubsub.Prelude.Words.{u64_mod}
use ce_pubsub.Message.{Cursor}
use ce_pubsub.Log.{TopicLog, prune_to, apply, get}
use ce_pubsub.Log.Numbering.{get_elem?-eq-none, get_elem?-drop}
use ce_pubsub.Log.Invariant.{IsWellFormed, apply-IsWellFormed, messages-prune_to, floor-prune_to}
use ce_pubsub.Log.Lookup.{get-position}

-- On a well-formed log that has a cursor left, after a prune a read finds nothing up to the
-- cursor of the prune, and above it what it found before.
pub get-prune_to :
    {l : TopicLog} (up_to c : Cursor)
    → IsWellFormed l
    → l.floor + length l.messages + 1 < u64_mod
    → get (apply l (prune_to up_to)) c ≡ (if leb c up_to then none else get l c)
get-prune_to {l} up_to c v room =
    let v' = apply-IsWellFormed (prune_to up_to) v room in
    let k = up_to - l.floor in
    let at = c - max l.floor (min up_to (l.floor + length l.messages)) - 1 in
    rw
      (
        get-position c v',
        messages-prune_to v up_to,
        floor-prune_to v up_to,
        get-position c v,
        get_elem?-drop k at l.messages,
      )
      (elim (dec_le c up_to) [
        | yes gone ↦ ground (arith, get_elem?-eq-none l.messages (k + at))
        | no kept ↦ elim (dec_le up_to (l.floor + length l.messages)) [
          | yes inside ↦ elim (dec_le c l.floor) [
            | yes low ↦ ground arith
            | no above ↦ let i : k + at ≡ c - l.floor - 1 = omega arith in rw i (ground arith)
          ]
          | no past ↦ ground (
            arith,
            get_elem?-eq-none l.messages (k + at),
            get_elem?-eq-none l.messages (c - l.floor - 1),
          )
        ]
      ])
