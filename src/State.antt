-- ===== src/State.antt =====
-- modelship/state: the key-value store that the deploy ledger and the conversations share.
pub mod Prefix
pub mod Memory
pub mod Store
pub mod Clocked
mod Tests
