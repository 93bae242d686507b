-- ===== src/Message/Channels.antt =====
-- The names of the channels of a topic.
use ce_pubsub.Prelude.{◌≡◌, arith}
use ce_pubsub.Prelude.Order.{Text}
use ce_pubsub.Message.{log_name, live_topic, ingest_topic, control_topic, subs_log_name}

-- The five kinds of channel.
pub data Channel : Type 0 where
  log live ingest control subs : Channel

pub name : Channel → Text → Text
name log = log_name
name live = live_topic
name ingest = ingest_topic
name control = control_topic
name subs = subs_log_name

-- Two of the names of a topic's log, live stream, ingest topic, control topic and registry are
-- equal only if they are of one channel and one topic.
name-injective : (a b : Channel) (t u : Text) → name a t ≡ name b u → (a ≡ b) × (t ≡ u)
unfolding name log_name live_topic ingest_topic control_topic subs_log_name
name-injective log log t u h = ground (arith, h)
name-injective _ _ t u h = ground (arith, h)
