-- ===== src/Store.antt =====
-- src/store.rs: the key-value store in memory.
pub mod Memory
pub mod Held
mod Tests
