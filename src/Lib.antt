-- ===== src/Lib.antt =====
-- ce-pubsub: durable topics with at-least-once subscriptions over a mesh of nodes, as a library of
-- models and theorems.
--
-- The program's parts. The owner of a topic keeps a replicated log of its messages (src/log.rs)
-- and a replicated registry of subscriptions (src/subscription.rs). Publishers send it ingest
-- requests, which it decodes (src/protocol.rs), answers from a cache if their key was seen
-- (src/dedup.rs), authorizes by a capability link (src/caps.rs), validates (src/message.rs) and
-- appends. Consumers send it control requests: subscriptions are created and deleted, messages are
-- leased, acknowledged or given back, and what was delivered too often goes to the dead letters.
-- src/lib.rs holds these handlers, the loops that poll for requests, and the client's side;
-- src/main.rs is a command line over both.
--
-- Which file models which part.
--   Prelude: lists, ordered maps, machine words, results and text that the parts share. Text is the
--     list of its UTF-8 bytes. A BTreeMap or HashMap is a list of pairs in key order.
--   Message: src/message.rs. `Message`, `PublishOptions`, `AttributeFilter`, the validators, and
--     the names of the channels of a topic. Message/Filter is `AttributeFilter::parse`.
--   Log: src/log.rs. `TopicLog` and `LogOp`; `apply`, `high_cursor`, `next_cursor`, `since`, `get`.
--   Dedup: src/dedup.rs. `IdempotencyCache` with `get` and `record_seen` (its `insert`), `TokenSet`
--     with `seen`, and their loop `evict`.
--   Subscription: src/subscription.rs. The state, the arms of `apply` (`commit_lease`,
--     `ack_cursor`, `nack_cursor`) and `advance_acked`; Subscription/Plan is `plan_lease`, with its
--     scan and the loop that bridges handled cursors. `handled` is the specification: a cursor is at
--     or below the floor, acknowledged, or dead. `lease_once` is a plan and its commit, and leaves
--     the state as it is where the plan is idle. Subscription/Run and Subscription/Floor are about
--     runs of such calls, Subscription/Attempts about the limit on deliveries, and
--     Subscription/Drain has the rounds of a consumer that leases and acknowledges.
--   Caps: src/caps.rs. `mint_link`, `inspect_link`, `verify_link`, `topic_allows`.
--   Protocol: src/protocol.rs. The requests and replies, and the bounds that decoding checks.
--   Owner: src/lib.rs, `TopicInner` as a record of state; `authorize`, `append_and_fanout`,
--     `apply_ingest`, `handle_ingest`, `publish_with`. Owner/Control: `handle_control`,
--     `handle_lease`, `route_dead_letters`. Owner/Serve: the loops `serve_ingest` and
--     `serve_control`, a frame at a time. Owner/Topic: `create_topic` and the calls on a `Topic`.
--     Owner/Authorize and Owner/Admit: what a requester needs to pass `authorize`.
--     Owner/Race: calls of `append_and_fanout` that overlap, which take turns from one `await` to the
--     next in the order of a schedule.
--   Client: src/lib.rs, `PubSub::pull_limited` with `converge_to`; `Reader` is what the
--     reader's replica shows at each read. Client/Remote: `publish_to_with`, `fetch_high_cursor`,
--     `pull` and the calls on subscriptions. Client/Live: `subscribe`, `recv`, and the live tail of
--     src/main.rs.
--   Network: the client's calls answered by the owner's loops. A request is one frame with a token
--     of its own; `direct` is the mesh that takes it to the owner and the reply back.
--   Cli: src/main.rs. `Cmd`, the parsers of arguments; Cli/Act has the steps of a command, which
--     change a state, print lines and end with a value or an error; Cli/Run has the commands.
--   Example: examples/end_to_end.rs, `main` without its printed lines.
--   Tests: runs on concrete inputs. Tests/Unit has the unit tests of src/log.rs, src/subscription.rs,
--     src/dedup.rs, src/message.rs, src/protocol.rs and src/caps.rs that run on the model.
--
-- Parameters. `Iam` (ce-iam-core and ce-identity), `Wire` (hex and serde_json) and `World` (what
-- the node does: proposals on the two replicated logs, the streams, the set of revoked
-- capabilities), `Mesh` (requests of ce-rs), `Opened` (what ce-coord opens for a topic), `Words`
-- (the texts of refusals) and `System` (what a command finds around it) stand for code outside the
-- repository. `Faithful`, `ReadsBack` and `Widens` say that encodings can be read back, and how
-- long they are; `Applies`, `AppliesSubs`, `StepsLog` and `StepsSubs` say what a proposal does to
-- the state, where a theorem needs it.
--
-- Numbers. Cursors are u64 and attempts u32: their sums wrap, and theorems name the bound under
-- which none does. Times and capacities are compared and subtracted only, but for the expiry date
-- of a token that is minted, whose sum wraps.
--
-- Fuel. `advance` has one round more than there are entries in the two maps from which each round
-- takes one; `bridge` one more than there are handled cursors, of which each round passes one; the
-- scan of a lease has as many as there are cursors from its start to the high cursor. The waits of
-- a pull end at the read after which the deadline has passed. The scanner of filters has the
-- length of the text, of which each pass takes up a byte; the live tail has the number of messages
-- that the stream will yield. The loop of the example has three rounds, which are enough.
--
-- Not modelled: `checkpoint` and `connect`, which are calls of ce-coord; logging, sleeping and the
-- subscriptions of the loops to their topics; the parsing of arguments by clap, the texts of
-- errors and of printed lines, which are constructors with what the text holds, and the position
-- that an error of the filter scanner names; the integration tests under tests, and the unit tests
-- that go through serde, save and load, real identities, payloads of 10 MiB or 10,000
-- subscriptions. Handlers run one at a time, as the owner's loops await each, but for the calls of
-- `append_and_fanout`, which Owner/Race lets overlap.
pub mod Prelude
pub mod Message
pub mod Log
pub mod Dedup
pub mod Subscription
pub mod Caps
pub mod Protocol
pub mod Owner
pub mod Client
pub mod Network
pub mod Cli
pub mod Example
pub mod Tests
