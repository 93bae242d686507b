-- ===== src/Client.antt =====
-- src/lib.rs, the client's side: a pull of the durable log, one page at a time. The owner's
-- answer for its high cursor and what the reader's replica shows at each read are given.
pub mod Paging
pub mod Converge
pub mod Remote
pub mod Live
use ce_pubsub.Prelude.{
  zero, suc, ◌+◌, true, false, leb, ◌==◌, ◌||◌, ℕ, Bool, Option, none, some, List, [], ◌∷◌, ltb,
  if◌then◌else◌, length, take, min, max,
}
use ce_pubsub.Prelude.Order.{Text}
use ce_pubsub.Prelude.Words.{saturating_sub}
use ce_pubsub.Prelude.Result.{Result, ok, err, ◌>>=◌, ◌>>◌}
use ce_pubsub.Message.{Cursor, Message, Invalid, validate_topic}
use ce_pubsub.Log.{TopicLog, since, high_cursor}

abbrev pub default_pull_limit : ℕ
default_pull_limit = 1_000

abbrev pub max_pull_limit : ℕ
max_pull_limit = 100_000

pub record Replay : Type 0 where
  pub messages : List Message
  pub high : Cursor
  pub next : Cursor
  pub target : Option Cursor
  pub converged : Bool
  pub truncated : Bool
  pub floor : Cursor
  pub missing : ℕ

-- `limit.clamp(1, MAX_PULL_LIMIT)`
unfoldable pub page_limit : ℕ → ℕ
page_limit limit = max 1 (min limit max_pull_limit)

-- `messages.last().map(|m| m.cursor).unwrap_or(from)`
abbrev pub last_cursor : Cursor → List Message → Cursor
last_cursor from [] = from
last_cursor from (m ∷ ms) = last_cursor m.cursor ms

unfoldable pub missing_after : Option Cursor → Cursor → ℕ
missing_after none high = 0
missing_after (some t) high = saturating_sub t high

-- The page that `pull_limited` cuts out of the replica.
unfoldable pub page : TopicLog → Option Cursor → Bool → Cursor → ℕ → Replay
page l target converged from limit =
    let found = since l from in
    let truncated = ltb (page_limit limit) (length found) in
    let messages = if truncated then take (page_limit limit) found else found in
    record {
      messages = messages;
      high = high_cursor l;
      next = last_cursor from messages;
      target = target;
      converged = converged;
      truncated = truncated;
      floor = l.floor;
      missing = missing_after target (high_cursor l);
    }

-- The reader's replica of the log at its successive reads, the version it shows at each, and whether
-- the deadline has passed when the clock is looked at after that read.
pub record Reader : Type 0 where
  pub log : ℕ → TopicLog
  pub version : ℕ → ℕ
  pub late : ℕ → Bool

-- The loop of `converge_to` with a target, from read number `i`: whether the target was reached, and
-- the number of the next read.
unfoldable pub await_target : ℕ → Reader → Cursor → ℕ → Bool × ℕ
await_target zero r t i = (false, i)
await_target (suc fuel) r t i =
    let rest = await_target fuel r t (i + 1) in
    if leb t (high_cursor (r.log i))
    then (true, i + 1)
    else if r.late i
    then (leb t (high_cursor (r.log (i + 1))), i + 2)
    else rest

-- The loop without a target: it ends when the version has stood still for two reads, or late.
unfoldable pub await_quiet : ℕ → Reader → ℕ → ℕ → ℕ → ℕ
await_quiet zero r last stable i = i
await_quiet (suc fuel) r last stable i =
    let still = if r.version i == last then stable + 1 else 0 in
    let rest = await_quiet fuel r (r.version i) still (i + 1) in
    if leb 2 still || r.late i then i + 1 else rest

-- `PubSub::converge_to`
unfoldable pub converge_to : ℕ → Reader → Option Cursor → Bool × ℕ
converge_to fuel r none = (false, await_quiet fuel r (r.version 0) 0 1)
converge_to fuel r (some t) = await_target fuel r t 0

-- `PubSub::pull_limited`: `target` is the owner's answer for its high cursor, if there was one.
unfoldable pub pull_limited : ℕ → Reader → Text → Option Cursor → Cursor → ℕ → Result Invalid Replay
pull_limited fuel r topic target from limit = do
  validate_topic topic
  let (converged, i) = converge_to fuel r target
  ok (page (r.log i) target converged from limit)
