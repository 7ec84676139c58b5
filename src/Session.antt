-- ===== src/Session.antt =====
-- src/protocol/methods/tempo/session_method.rs: the server side of payment channels.
pub mod Types
pub mod Updates
pub mod Task
pub mod Store
pub mod Issues
pub mod Externs
pub mod Method
pub mod Issued
pub mod Vocabulary
pub mod Server
pub mod Solvency
pub mod Progress
pub mod Authentic
pub mod Run
pub mod Accepting
pub mod Vouchers
pub mod Closeable
pub mod Closing
pub mod Unserved
pub mod Stranding
pub mod Replay
pub mod Binding
pub mod Opened
pub mod ToppedUp
mod Tests
mod OpenTests
