-- ===== src/Tests/Race.antt =====
-- Two publishes of one owner that overlap.
use ce_pubsub.Prelude.{
  ℕ, ◌+◌, ◌≡◌, ◌≢◌, ◌⊎◌, refl, some, List, [], ◌∷◌, ◌++◌, arith, true, member, select, map,
}
use ce_pubsub.Message.{Cursor}
use ce_pubsub.Log
use ce_pubsub.Log.Invariant.{IsWellFormed}
use ce_pubsub.Owner.Race.{Race, call, turn, advance, run}
use ce_pubsub.Owner.Race.Landing.{Landed}
use ce_pubsub.Owner.Race.Turns.{run_lands}
use ce_pubsub.Owner.Race.Overtaken.{outcome, overtaken}
use ce_pubsub.Owner.Race.Exact.{exact}
use ce_pubsub.Owner.Race.Fanout.{unique, is_returned, fanout}
use ce_pubsub.Tests.Log.{note}
use ce_pubsub.Tests.Owner.{world, world-Applies, owner, owner-IsWellFormed}
use ce_pubsub.Tests.Sound.{world-StepsLog}

abbrev race : Race
race = record { owner = owner; calls = λ n. call (note (n + 20)) }

run_lands_example :
    let r' = run world race (0 ∷ 1 ∷ 0 ∷ 1 ∷ 0 ∷ 1 ∷ []) in
    (a b : Cursor) × Landed owner.log r'.owner.log (note 20) (r'.calls 0) a
    × Landed owner.log r'.owner.log (note 21) (r'.calls 1) b
    × (◌⊎◌ (◌≡◌ {A = ℕ} 0 1) (a ≢ b))
    × IsWellFormed r'.owner.log
unfolding turn advance
run_lands_example =
    run_lands world race (0 ∷ 1 ∷ 0 ∷ 1 ∷ 0 ∷ 1 ∷ []) 0 1 world-Applies world-StepsLog
      owner-IsWellFormed (omega arith) (λ n. refl) refl refl

overtaken_example :
    let r' = run world race (0 ∷ 1 ∷ 0 ∷ 1 ∷ 0 ∷ 1 ∷ []) in
    (2 ≡ Log.next_cursor owner.log)
    × (2 ≡ Log.next_cursor owner.log)
    × (a b : Cursor) × (Log.get r'.owner.log a ≡ some (record (note 20) { cursor = a }))
    × (Log.get r'.owner.log b ≡ some (record (note 21) { cursor = b }))
    × (a ≢ b)
unfolding turn advance outcome Log.next_cursor ce_pubsub.Prelude.Words.add_u64 Log.high_cursor
overtaken_example =
    overtaken world race (0 ∷ 1 ∷ 0 ∷ 1 ∷ []) 0 1 2 2 world-Applies world-StepsLog
      owner-IsWellFormed (omega arith) (λ n. refl) (omega arith) refl refl

exact_example :
    let r' = run world race (0 ∷ 1 ∷ 1 ∷ 0 ∷ 1 ∷ []) in
    Log.get r'.owner.log 2 ≡ some (record (note 21) { cursor = 2 })
unfolding turn advance outcome Log.next_cursor ce_pubsub.Prelude.Words.add_u64 Log.high_cursor
exact_example =
    exact world race (0 ∷ []) (0 ∷ 1 ∷ []) 1 2 world-Applies world-StepsLog owner-IsWellFormed
      (omega arith) refl refl

fanout_example :
    let r' = run world race (0 ∷ 1 ∷ 0 ∷ 1 ∷ 1 ∷ 0 ∷ []) in
    (order : List ℕ) × (unique order ≡ true)
    × ((k : ℕ) → member k order ≡ is_returned (r'.calls k).point)
    × (r'.owner.live ≡ owner.live ++ select world.live_publish (map (λ k. (r'.calls k).msg) order))
fanout_example = fanout world race (0 ∷ 1 ∷ 0 ∷ 1 ∷ 1 ∷ 0 ∷ []) (λ n. refl)
