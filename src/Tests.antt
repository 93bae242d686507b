-- ===== src/Tests.antt =====
-- Runs of the model on concrete inputs, and each theorem applied to one.
pub mod Log
pub mod Dedup
pub mod Subscription
pub mod Message
pub mod Filter
pub mod Hex
pub mod Codec
pub mod Faithful
pub mod Links
pub mod Wire
pub mod Owner
pub mod Client
pub mod Network
pub mod Limits
pub mod Sound
pub mod Race
pub mod Again
pub mod Drain
pub mod Grants
pub mod Unit
pub mod Cli
