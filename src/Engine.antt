-- ===== src/Engine.antt =====
-- internal/engine: the message, the JSON-RPC parser and the correlator.
pub mod Message
pub mod Json
pub mod Parser
pub mod Correlator
mod Tests
