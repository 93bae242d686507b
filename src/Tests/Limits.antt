-- ===== src/Tests/Limits.antt =====
-- A payload of six million bytes, which is within the documented bound.
use ce_pubsub.Prelude.{ℕ, zero, suc, ◌≡◌, refl, none, [], ◌∷◌, arith, length, le→ltb_false}
use ce_pubsub.Prelude.Order.{Text, codes}
use ce_pubsub.Prelude.Result.{ok, err}
use ce_pubsub.Message.{
  max_payload_bytes, validate_topic, topic_char, validate_payload, validate_options,
  validate_attributes,
}
use ce_pubsub.Protocol.{too_large}
use ce_pubsub.Owner.{bad_request}
use ce_pubsub.Client.Remote.{owner_rejected, publish_to_with, no_options}
use ce_pubsub.Network.{direct}
use ce_pubsub.Network.Limits.{publish_too_large}
use ce_pubsub.Tests.Wire.{plain_iam}
use ce_pubsub.Tests.Owner.{world}
use ce_pubsub.Tests.Faithful.{true_wire, true_wire-Widens}
use ce_pubsub.Tests.Network.{words, node}

unfoldable zeros : ℕ → Text
zeros zero = []
zeros (suc n) = 0 ∷ zeros n

length-zeros : (n : ℕ) → length (zeros n) ≡ n
unfolding zeros
length-zeros zero = refl
length-zeros (suc n) = omega (arith, length-zeros n)

abbrev payload : Text
payload = zeros 6_000_000

payload-fits : validate_payload payload ≡ ok tt
unfolding validate_payload
payload-fits =
    let size = length-zeros 6_000_000 in
    rw (le→ltb_false max_payload_bytes (length payload) (omega (arith, size))) refl

publish_too_large_example :
    let mesh = direct plain_iam true_wire world words (codes "p") 100 in
    publish_to_with true_wire mesh
      (node, 7)
      (codes "t")
      (codes "n")
      payload
      none
      no_options
      none
      1000
    ≡ ((node, 8), err (owner_rejected (words.refusal (bad_request too_large))))
unfolding validate_topic topic_char validate_options validate_attributes
publish_too_large_example =
    let size = length-zeros 6_000_000 in
    publish_too_large plain_iam true_wire world words true_wire-Widens (codes "p") 100 node 7
      (codes "n") payload none no_options none 1000 refl payload-fits refl (omega (arith, size))
