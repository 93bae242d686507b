-- ===== src/Tests/Message.antt =====
-- Messages, options, topic names and filters.
use ce_pubsub.Prelude.{none, [], ◌∷◌}
use ce_pubsub.Prelude.Order.{codes, text_order}
use ce_pubsub.Message.{PublishOptions}

abbrev pub options : PublishOptions
options = record { ordering_key = none; attributes = (codes "region", codes "eu") ∷ [] }
