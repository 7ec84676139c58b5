-- ===== src/Charge.antt =====
-- Charges: src/protocol/intents/charge.rs and src/protocol/methods/tempo/charge.rs.
pub mod Json
pub mod Request
pub mod Tempo
