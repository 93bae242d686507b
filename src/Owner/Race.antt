-- ===== src/Owner/Race.antt =====
-- src/lib.rs: calls of `append_and_fanout` that overlap. The handle of a topic is cloned, so that
-- the owner's calls of `publish` and the ingest loop run as tasks of their own; a task gives way
-- at each `await`, between the read of the next cursor, the append and the live fan-out.
pub mod Landing
pub mod Turns
pub mod Overtaken
pub mod Exact
pub mod Fanout
use ce_pubsub.Prelude.{ℕ, zero, suc, Option, none, some, List, [], ◌∷◌, ◌++◌, ◌==◌, if◌then◌else◌}
use ce_pubsub.Prelude.Order.{Text}
use ce_pubsub.Message.{Cursor, Message}
use ce_pubsub.Log
use ce_pubsub.Owner.{Owner, World, Refusal, append_failed}

-- Where a call stands.
pub data Point : Type 0 where
  called stamped appended returned : Point
  failed : Text → Point

-- A call: its local variable `msg`, which carries the local variable `cursor` once that is read,
-- and where it stands.
pub record Call : Type 0 where
  pub msg : Message
  pub point : Point

abbrev pub call : Message → Call
call m = record { msg = m; point = called }

-- An owner and the calls under way on it. Of the numbers, all name calls; a schedule picks some.
pub record Race : Type 0 where
  pub owner : Owner
  pub calls : ℕ → Call

abbrev pub update {ℓ} : {A : Type ℓ} → (ℕ → A) → ℕ → A → ℕ → A
update family i a j = if i == j then a else family j

module _ (w : World) where
  -- From one `await` of `append_and_fanout` to the next.
  unfoldable pub advance : Owner → Message → Point → Owner × Call
  advance o m called =
      (o, record { msg = record m { cursor = Log.next_cursor o.log }; point = stamped })
  advance o m stamped =
      let (log, failure) = w.propose_log o.log (Log.append m) in
      (
        record o { log = log },
        record { msg = m; point = elim failure [ some why ↦ failed why | none ↦ appended ] },
      )
  advance o m appended = (
    record o { live = if w.live_publish m then o.live ++ m ∷ [] else o.live },
    record { msg = m; point = returned },
  )
  advance o m returned = (o, record { msg = m; point = returned })
  advance o m (failed why) = (o, record { msg = m; point = failed why })

  -- Call `i` goes on to its next `await`.
  unfoldable pub turn : Race → ℕ → Race
  turn r i =
      let (o, c) = advance r.owner (r.calls i).msg (r.calls i).point in
      record { owner = o; calls = update r.calls i c }

  -- The calls take their turns in the order of a schedule.
  abbrev pub run : Race → List ℕ → Race
  run r [] = r
  run r (i ∷ schedule) = run (turn r i) schedule
