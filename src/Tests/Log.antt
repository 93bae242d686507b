-- ===== src/Tests/Log.antt =====
-- The log on a history of three appends and a prune.
use ce_pubsub.Prelude.{
  ℕ, dec_lt, ◌≡◌, refl, false, none, List, [], ◌∷◌, arith, ltb, if◌then◌else◌, get_elem?,
}
use ce_pubsub.Prelude.Words.{add_u64}
use ce_pubsub.Message.{Message}
use ce_pubsub.Log.{
  TopicLog, LogOp, append, prune_to, empty_log, apply, replay, get, high_cursor, next_cursor,
}
use ce_pubsub.Log.Invariant.{IsWellFormed}
use ce_pubsub.Log.History.{record_all, start, view, replay-history, get-history}

-- A message whose proposer wrote a wrong cursor.
abbrev pub note : ℕ → Message
note t = record {
  cursor = 99;
  publisher = [];
  payload_hex = [];
  published_at = t;
  ordering_key = none;
  attributes = [];
  publisher_authenticated = false;
}

abbrev ops : List LogOp
ops = append (note 10) ∷ append (note 20) ∷ prune_to 1 ∷ append (note 30) ∷ []

abbrev pub short_log : TopicLog
short_log = record {
  messages = record (note 20) { cursor = 2 } ∷ record (note 30) { cursor = 3 } ∷ [];
  floor = 1;
}

three_appends : replay empty_log ops ≡ short_log
unfolding apply next_cursor high_cursor dec_lt add_u64
three_appends = refl

pub short_log-IsWellFormed : IsWellFormed short_log
short_log-IsWellFormed = record { numbered = (refl, (refl, tt)); fits = omega arith }

replay-history_example :
    (replay empty_log ops ≡ view (record_all start ops)) × IsWellFormed (replay empty_log ops)
replay-history_example = replay-history ops (omega arith)

get-history_example : get (replay empty_log ops) 2 ≡ (
    if ltb 1 (record_all start ops).pruned
    then none
    else get_elem? (record_all start ops).published 1)
get-history_example = get-history ops 1 (omega arith)
