-- ===== src/Server.antt =====
-- The server's core: src/server/mpp.rs and the challenges of src/protocol/core.
pub mod Challenge
mod Ids
pub mod Types
mod Verify
mod Create
mod Verified
mod Expected
mod Sessions
mod Issued
mod Charged
mod Toy
mod Tests
mod ChargeTests
