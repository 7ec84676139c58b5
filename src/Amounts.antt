-- ===== src/Amounts.antt =====
-- Amounts in base units: src/server/amount.rs and src/protocol/intents/mod.rs.
mod Defs
mod Value
mod Units
mod Tests
pub use Defs.{AmountError, UnitsError}
unfoldable pub use Defs.{
  part_value, base_units, combine_parts, parse_dollar_amount, pad_zeros, parse_units,
}
