-- ===== src/Log/Lookup.antt =====
-- The indexed lookup of `get` against a scan for the cursor.
use ce_pubsub.Prelude.{
  ℕ, zero, suc, ◌+◌, ◌-◌, ◌≤◌, ◌<◌, ◌≡◌, refl, Option, none, some, List, [], ◌∷◌, arith, leb, ◌==◌,
  if◌then◌else◌, length, get_elem?,
}
use ce_pubsub.Message.{Cursor, Message}
use ce_pubsub.Log.{TopicLog, high_cursor, get}
use ce_pubsub.Log.Numbering.{Numbered, get_elem?-eq-none}
use ce_pubsub.Log.Invariant.{IsWellFormed, high_cursor-eq}

-- The first message that carries the cursor.
pub scan : Cursor → List Message → Option Message
scan c [] = none
scan c (m ∷ ms) = if m.cursor == c then some m else scan c ms

scan_below : (n c : ℕ) (ms : List Message) → Numbered n ms → c ≤ n → scan c ms ≡ none
unfolding scan
scan_below n c [] h le = refl
scan_below n c (m ∷ ms) h le = ground (arith, scan_below (suc n) c ms h.1)

scan-get_elem? :
    (n c i : ℕ) (ms : List Message) → Numbered n ms → c ≡ suc n + i → scan c ms ≡ get_elem? ms i
unfolding scan
scan-get_elem? n c i [] h e = refl
scan-get_elem? n c zero (m ∷ ms) h e = ground arith
scan-get_elem? n c (suc i) (m ∷ ms) h e =
    ground (arith, scan-get_elem? (suc n) c i ms h.1 (omega arith))

-- The test against the high cursor is one that the access by position makes as well.
pub get-position :
    {l : TopicLog} (c : Cursor)
    → IsWellFormed l
    → get l c ≡ (if leb c l.floor then none else get_elem? l.messages (c - l.floor - 1))
unfolding get
get-position {l} c v =
    ground (arith, high_cursor-eq v, get_elem?-eq-none l.messages (c - l.floor - 1))

-- On a well-formed log the lookup by position finds what a scan of every retained message for the
-- cursor finds.
get-scan : {l : TopicLog} (c : Cursor) → IsWellFormed l → get l c ≡ scan c l.messages
get-scan {l} c v = rw (get-position c v) (
    ground (
      arith,
      scan_below l.floor c l.messages v.numbered,
      scan-get_elem? l.floor c (c - l.floor - 1) l.messages v.numbered,
    ))

get_elem?-Numbered :
    (n i : ℕ) (ms : List Message)
    → Numbered n ms
    → i < length ms
    → (m : Message) × (get_elem? ms i ≡ some m) × (m.cursor ≡ suc n + i)
get_elem?-Numbered n i [] h lt = absurd (omega (arith, lt))
get_elem?-Numbered n zero (m ∷ ms) h lt = (m, refl, omega (arith, h.0))
get_elem?-Numbered n (suc i) (m ∷ ms) h lt =
    let (x, e, q) = get_elem?-Numbered (suc n) i ms h.1 (omega (arith, lt)) in
    (x, e, omega (arith, q))

-- A cursor above the floor and not above the high cursor has its message.
pub get-eq-some :
    {l : TopicLog} (c : Cursor)
    → IsWellFormed l
    → l.floor < c
    → c ≤ high_cursor l
    → (m : Message) × (get l c ≡ some m) × (m.cursor ≡ c)
get-eq-some {l} c v above below =
    let high = high_cursor-eq v in
    let (m, e, q) =
      get_elem?-Numbered l.floor (c - l.floor - 1) l.messages v.numbered (omega (arith, high)) in
    (m, rw (get-position c v) (ground (arith, e)), omega (arith, q))
