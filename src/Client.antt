-- ===== src/Client.antt =====
-- The payer's side of channels: src/client/tempo/session/mod.rs and channel_ops.rs.
mod Types
mod Terms
mod Payloads
mod Pay
mod Opening
mod Recovered
mod Signed
mod Payment
mod Ops
mod Raises
mod Owed
mod Tests
