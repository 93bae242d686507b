-- ===== src/Log.antt =====
-- src/log.rs: the durable topic log, a state machine that appends and prunes.
pub mod Numbering
pub mod Invariant
pub mod Lookup
pub mod Append
pub mod History
pub mod Retention
use ce_pubsub.Prelude.{
  ℕ, ◌-◌, ◌≡◌, Bool, ◌||◌, Option, none, List, [], ◌∷◌, ◌++◌, dec_lt, leb, ltb, if◌then◌else◌,
  length, get_elem?,
}
use mathlib.Core.List.{filter, foldl}
use ce_pubsub.Prelude.Words.{add_u64}
use ce_pubsub.Message.{Cursor, Message}

pub record TopicLog : Type 0 where
  pub messages : List Message
  pub floor : ℕ

pub data LogOp : Type 0 where
  append : Message → LogOp
  prune_to : Cursor → LogOp

-- `TopicLog::default()`
abbrev pub empty_log : TopicLog
empty_log = record { messages = []; floor = 0 }

unfoldable pub high_cursor : TopicLog → Cursor
high_cursor l = add_u64 l.floor (length l.messages)

unfoldable pub next_cursor : TopicLog → Cursor
next_cursor l = add_u64 (high_cursor l) 1

-- `messages.retain(|m| m.cursor > from)`, and the loop of `since`.
abbrev pub after : Cursor → List Message → List Message
after from = filter λ m. dec_lt from m.cursor

unfoldable pub apply : TopicLog → LogOp → TopicLog
apply l (append m) = record l { messages = l.messages ++ record m { cursor = next_cursor l } ∷ [] }
apply l (prune_to up_to) = record {
  messages = after up_to l.messages;
  floor = add_u64 l.floor (length l.messages - length (after up_to l.messages));
}

unfoldable pub since : TopicLog → Cursor → List Message
since l from = after from l.messages

unfoldable pub get : TopicLog → Cursor → Option Message
get l cursor =
    if leb cursor l.floor || ltb (high_cursor l) cursor
    then none
    else get_elem? l.messages (cursor - l.floor - 1)

-- Replaying a list of operations, as every replica does.
abbrev pub replay : TopicLog → List LogOp → TopicLog
replay l [] = l
replay l (op ∷ ops) = replay (apply l op) ops
