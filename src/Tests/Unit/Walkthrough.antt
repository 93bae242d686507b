-- ===== src/Tests/Unit/Walkthrough.antt =====
-- The example of src/examples runs to its end, whatever the clock shows; a filter, the options and
-- the grants of requests as the tests of src/message.rs, src/protocol.rs and src/lib.rs have them.
use ce_pubsub.Prelude.{
  ℕ, zero, suc, ◌+◌, ◌≡◌, refl, Bool, true, false, not, ◌&&◌, ◌==◌, Option, none, some, List, [],
  ◌∷◌, ◌++◌, length,
}
use ce_pubsub.Prelude.Order.{Text, codes, same, text_order}
use ce_pubsub.Prelude.Map.{insert}
use ce_pubsub.Prelude.Result.{Result, ok, err}
use ce_pubsub.Message.{Message, new, matches}
use ce_pubsub.Message.Filter.{FilterError, parse, is_empty}
use ce_pubsub.Message.{AttributeFilter}
use ce_pubsub.Subscription.{SubscriptionState}
use ce_pubsub.Protocol
use ce_pubsub.Protocol.{grant_of}
use ce_pubsub.Example.{subscription_part, main}
use ce_pubsub.Tests.Unit.{is_ok, is_none}
use ce_pubsub.Tests.Hex.{hex_encode}

abbrev at_end : Option SubscriptionState → Bool
at_end none = false
at_end (some st) = st.acked == 4

subscription_part_ends : at_end (subscription_part 3 4 2) ≡ true
unfolding subscription_part ce_pubsub.Subscription.Plan.plan_lease ce_pubsub.Prelude.Map.lookup
    ce_pubsub.Subscription.apply insert ce_pubsub.Prelude.Order.text_cmp
    ce_pubsub.Subscription.Plan.idle ce_pubsub.Subscription.Plan.scanned
    ce_pubsub.Subscription.Plan.scan ce_pubsub.Subscription.Plan.start
    ce_pubsub.Prelude.Words.add_u64 ce_pubsub.Subscription.Plan.visit
    ce_pubsub.Subscription.Plan.skipped ce_pubsub.Subscription.Plan.exhausted
    ce_pubsub.Subscription.next_attempt ce_pubsub.Prelude.Words.add_u32 ce_pubsub.Example.redeliver
    ce_pubsub.Prelude.Map.modify ce_pubsub.Subscription.ack_cursor
    ce_pubsub.Subscription.advance_acked ce_pubsub.Subscription.advance
    ce_pubsub.Subscription.commit_lease ce_pubsub.Subscription.raise_floor
    ce_pubsub.Subscription.grant_lease ce_pubsub.Subscription.Plan.new_floor
    ce_pubsub.Subscription.Plan.bridge ce_pubsub.Subscription.Plan.handled_after
    ce_pubsub.Prelude.Map.retain ce_pubsub.Subscription.fold_in ce_pubsub.Prelude.Map.remove
    ce_pubsub.Subscription.Plan.expiry ce_pubsub.Prelude.Words.saturating_add
    ce_pubsub.Example.time_out ce_pubsub.Subscription.mark_dead
subscription_part_ends = refl

main_ends : (hex : Text → Text) (clock : ℕ → ℕ) → at_end (main 3 hex clock) ≡ true
unfolding main ce_pubsub.Example.log_part ce_pubsub.Log.apply ce_pubsub.Example.append_bodies
    ce_pubsub.Prelude.dec_lt ce_pubsub.Log.next_cursor ce_pubsub.Prelude.Words.add_u64
    ce_pubsub.Log.high_cursor
main_ends hex clock = subscription_part_ends

abbrev message_of_test : Message
message_of_test = record (new hex_encode 1 (codes "n") (codes "x") 1) {
  attributes = insert (codes "priority") (codes "high") (insert (codes "kind") (codes "order") []);
}

abbrev accepts : Result FilterError AttributeFilter → Bool
accepts (ok f) = matches f message_of_test
accepts (err e) = false

abbrev empty_filter : Result FilterError AttributeFilter → Bool
empty_filter (ok f) = is_empty f
empty_filter (err e) = false

abbrev attribute_filter_parse : Bool
attribute_filter_parse =
    accepts (parse (codes "kind=\"order\" priority=\"high\""))
    && (accepts (parse (codes "attributes.kind == \"order\""))
        && (empty_filter (parse (codes "   "))
            && (not (is_ok (parse (codes "kind=order")))
                && (not (is_ok (parse (codes "kind=\"order")))
                    && not (is_ok (parse (codes "=\"v\"")))))))

attribute_filter_parse_passes : attribute_filter_parse ≡ true
unfolding parse ce_pubsub.Prelude.Text.trim ce_pubsub.Message.Filter.clauses
    ce_pubsub.Message.Filter.skip_spaces ce_pubsub.Message.Filter.is_space
    ce_pubsub.Message.Filter.clause ce_pubsub.Message.Filter.split_at
    ce_pubsub.Message.Filter.skip_one ce_pubsub.Message.Filter.key_of
    ce_pubsub.Message.Filter.strip_prefix matches ce_pubsub.Prelude.Map.lookup insert
    ce_pubsub.Prelude.Order.text_cmp is_empty
attribute_filter_parse_passes = refl

abbrev is_grant : Option Text → Text → Bool
is_grant none expected = false
is_grant (some token) expected = same token expected

abbrev grant_accessor_covers_every_variant : Bool
grant_accessor_covers_every_variant =
    is_grant (grant_of (Protocol.ack (codes "s") 1 (some (codes "g")))) (codes "g")
    && is_none (grant_of (Protocol.high_cursor none))

grant_accessor_covers_every_variant_passes : grant_accessor_covers_every_variant ≡ true
unfolding grant_of ce_pubsub.Prelude.Order.text_cmp
grant_accessor_covers_every_variant_passes = refl
