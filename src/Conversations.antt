-- ===== src/Conversations.antt =====
-- modelship/openai/state/responses.py: the conversations of `/v1/responses`, over a `StateStore`.
pub mod Keys
pub mod Settings
pub mod Records
pub mod History
pub mod Turns
pub mod Heartbeats
pub mod Stream
mod Tests
