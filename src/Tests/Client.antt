-- ===== src/Tests/Client.antt =====
-- Pulls of a short log, and a prune of it.
use ce_pubsub.Prelude.{refl, true, some, ◌≤◌, leb, ◌≡◌, dec_lt, arith, leb}
use ce_pubsub.Log.{high_cursor, since}
use ce_pubsub.Prelude.Words.{add_u64}
use ce_pubsub.Prelude.Order.{codes}
use ce_pubsub.Message.{Cursor, validate_topic, topic_char}
use ce_pubsub.Client.{Reader, page, await_target, converge_to, pull_limited}
use ce_pubsub.Client.Converge.{Grows, pull_limited-converged}
use ce_pubsub.Client.Paging.{pages, pages_lem}
use ce_pubsub.Tests.Log.{short_log, short_log-IsWellFormed}

-- Pages of one message.
pages_lem_example : pages 3 short_log 0 1 ≡ since short_log 0
unfolding since dec_lt
pages_lem_example = pages_lem 3 0 1 short_log-IsWellFormed (omega arith)

-- A replica that has caught up from the start, with time for two more reads.
abbrev reader : Reader
reader = record { log = λ i. short_log; version = λ i. 3; late = λ i. leb 2 i }

reader-Grows : Grows reader
reader-Grows = record { grows = λ i j le. omega arith }

pull_limited-converged_example :
    let p = page short_log (some 3) true 0 1 in
    (t : Cursor) × (p.target ≡ some t) × (t ≤ p.high) × (p.missing ≡ 0)
unfolding pull_limited validate_topic topic_char converge_to await_target high_cursor add_u64 page
pull_limited-converged_example =
    pull_limited-converged 3 reader (codes "t") (some 3) 0 1 (page short_log (some 3) true 0 1)
      reader-Grows refl refl
