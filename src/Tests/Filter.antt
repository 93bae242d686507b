-- ===== src/Tests/Filter.antt =====
-- A filter that is read.
use ce_pubsub.Prelude.{◌≡◌, refl, List, [], ◌∷◌, All, arith}
use ce_pubsub.Prelude.Order.{Text, codes}
use ce_pubsub.Prelude.Result.{ok}
use ce_pubsub.Message.Filter.{clauses, parse}
use ce_pubsub.Message.Filter.RoundTrip.{IsPlain, written, parse-written}

abbrev found : List (Text × Text)
found = (codes "region", codes "eu west") ∷ (codes "tier", codes "1") ∷ []

found-IsPlain : All IsPlain found
unfolding ce_pubsub.Message.topic_char ce_pubsub.Message.Filter.strip_prefix
found-IsPlain = (
  record {
    some_key = omega arith;
    bare = (refl, (refl, (refl, (refl, (refl, (refl, tt))))));
    no_prefix = refl;
    no_quote = (refl, (refl, (refl, (refl, (refl, (refl, (refl, tt)))))));
  },
  (
    record {
      some_key = omega arith;
      bare = (refl, (refl, (refl, (refl, tt))));
      no_prefix = refl;
      no_quote = (refl, tt);
    },
    tt,
  ),
)

parse-written_example : parse (written found) ≡ ok (record { clauses = found })
parse-written_example = parse-written found found-IsPlain
