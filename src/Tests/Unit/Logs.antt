-- ===== src/Tests/Unit/Logs.antt =====
-- The tests of src/log.rs, over hex as it is written.
use ce_pubsub.Prelude.{
  ℕ, ◌+◌, ◌≡◌, refl, Bool, true, false, not, ◌&&◌, ◌==◌, Option, none, some, List, [], ◌∷◌, length,
}
use ce_pubsub.Prelude.Order.{Text, codes, same, text_order}
use ce_pubsub.Message.{Cursor, Message, new}
use ce_pubsub.Log.{
  TopicLog, empty_log, append, prune_to, apply, high_cursor, next_cursor, since, get, replay,
}
use ce_pubsub.Cli.{text}
use ce_pubsub.Tests.Unit.{cursors_eq, is_none}
use ce_pubsub.Tests.Hex.{hex_encode}
use ce_pubsub.Tests.Faithful.{true_wire}

abbrev pub msg : Cursor → Text → Message
msg cursor body = new hex_encode cursor (codes "writer") body (1000 + cursor)

abbrev cursors_of : List Message → List Cursor
cursors_of [] = []
cursors_of (m ∷ ms) = m.cursor ∷ cursors_of ms

-- `log.get(c).unwrap().text() == body`; the texts of the tests are ASCII.
abbrev reads : TopicLog → Cursor → Text → Bool
reads l c body = elim (get l c) [
  | none ↦ false
  | some m ↦ same (text (λ bytes. bytes) true_wire m) body
]

abbrev append_assigns_monotonic_cursors : Bool
append_assigns_monotonic_cursors =
    let l = replay empty_log (append (msg 1 (codes "a")) ∷ append (msg 2 (codes "b")) ∷ []) in
    next_cursor empty_log == 1
    && (high_cursor l == 2 && (next_cursor l == 3 && length l.messages == 2))

append_assigns_monotonic_cursors_passes : append_assigns_monotonic_cursors ≡ true
unfolding next_cursor ce_pubsub.Prelude.Words.add_u64 high_cursor apply
append_assigns_monotonic_cursors_passes = refl

abbrev since_returns_strict_tail : Bool
since_returns_strict_tail =
    let l =
      replay empty_log (
        append (msg 1 (codes "a"))
        ∷ append (msg 2 (codes "b"))
        ∷ append (msg 3 (codes "c"))
        ∷ []) in
    cursors_eq (cursors_of (since l 1)) (2 ∷ 3 ∷ [])
    && (length (since l 0) == 3 && length (since l 3) == 0)

since_returns_strict_tail_passes : since_returns_strict_tail ≡ true
unfolding since apply ce_pubsub.Prelude.dec_lt next_cursor ce_pubsub.Prelude.Words.add_u64
    high_cursor
since_returns_strict_tail_passes = refl

-- The five appends of the loops.
abbrev five : TopicLog
five = replay empty_log (
    append (msg 1 (codes "m1"))
    ∷ append (msg 2 (codes "m2"))
    ∷ append (msg 3 (codes "m3"))
    ∷ append (msg 4 (codes "m4"))
    ∷ append (msg 5 (codes "m5"))
    ∷ [])

abbrev prune_advances_floor_and_keeps_cursors_absolute : Bool
prune_advances_floor_and_keeps_cursors_absolute =
    let l = apply five (prune_to 2) in
    l.floor == 2
    && (cursors_eq (cursors_of l.messages) (3 ∷ 4 ∷ 5 ∷ [])
        && (high_cursor l == 5 && (next_cursor l == 6 && length (since l 0) == 3)))

prune_advances_floor_and_keeps_cursors_absolute_passes :
    prune_advances_floor_and_keeps_cursors_absolute ≡ true
unfolding apply ce_pubsub.Prelude.Words.add_u64 ce_pubsub.Prelude.dec_lt next_cursor high_cursor
    since
prune_advances_floor_and_keeps_cursors_absolute_passes = refl

abbrev get_indexes_by_absolute_cursor_after_prune : Bool
get_indexes_by_absolute_cursor_after_prune =
    let l = apply five (prune_to 2) in
    reads five 1 (codes "m1")
    && (reads five 5 (codes "m5")
        && (is_none (get five 0)
            && (is_none (get five 6)
                && (is_none (get l 1)
                    && (is_none (get l 2)
                        && (reads l 3 (codes "m3")
                            && (reads l 5 (codes "m5") && is_none (get l 6))))))))

get_indexes_by_absolute_cursor_after_prune_passes :
    get_indexes_by_absolute_cursor_after_prune ≡ true
unfolding get apply high_cursor ce_pubsub.Prelude.Words.add_u64 ce_pubsub.Prelude.Order.text_cmp
    text new ce_pubsub.Prelude.dec_lt next_cursor
get_indexes_by_absolute_cursor_after_prune_passes = refl

abbrev append_restamps_cursor_to_preserve_invariant : Bool
append_restamps_cursor_to_preserve_invariant =
    let l1 = apply empty_log (append (msg 999 (codes "out-of-band cursor"))) in
    let l2 = apply l1 (append (msg 0 (codes "another"))) in
    high_cursor l1 == 1
    && (cursors_eq (cursors_of l1.messages) (1 ∷ [])
        && (cursors_eq (cursors_of l2.messages) (1 ∷ 2 ∷ [])
            && (is_none (get l2 999) && reads l2 1 (codes "out-of-band cursor"))))

append_restamps_cursor_to_preserve_invariant_passes :
    append_restamps_cursor_to_preserve_invariant ≡ true
unfolding high_cursor ce_pubsub.Prelude.Words.add_u64 apply next_cursor get
    ce_pubsub.Prelude.Order.text_cmp text new
append_restamps_cursor_to_preserve_invariant_passes = refl
