-- ===== src/Headers.antt =====
-- src/protocol/core/headers.rs: the headers of challenges, credentials and receipts.
pub mod Params
mod Challenge
mod Reads
mod Loop
mod Ends
mod RoundTrip
pub mod Tokens
mod TokenRoundTrip
mod Split
mod Tests
