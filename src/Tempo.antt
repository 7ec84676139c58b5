-- ===== src/Tempo.antt =====
-- The charge method of tempo: src/protocol/methods/tempo/method.rs.
mod Claims
pub mod Logs
mod Match
mod Paid
mod Attribution
pub mod Source
mod Hash
mod HashPaid
mod Policy
mod Calls
mod Cosign
mod Cosigned
mod Proof
mod Payload
mod Broadcast
mod Verify
mod Reserved
mod Submitted
mod Received
mod Sent
mod Proven
mod Shown
mod Verified
mod Once
mod CallsPaid
mod CallTests
mod CosignTests
mod VerifyTests
mod Tests
