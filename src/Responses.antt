-- ===== src/Responses.antt =====
-- modelship/openai/protocol/responses: the translation between the Responses API and chat completions.
pub mod Result
pub mod Content
pub mod Messages
pub mod Tools
pub mod Chat
pub mod Envelope
pub mod Stream
mod Tests
