-- ===== src/Deploy.antt =====
-- modelship/deploy: the versions of a gateway's models, and the requests that change them.
pub mod Ledger
pub mod Leases
pub mod Deaths
pub mod Requests
pub mod Diff
pub mod Router
pub mod Tables
pub mod Replicas
pub mod Routing
mod Tests
