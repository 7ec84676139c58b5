-- ===== src/Transfers.antt =====
-- src/protocol/methods/tempo/transfers.rs, with the memo parser of charge.rs beside it: the transfers
-- of a charge with split payments.
mod Defs
pub mod Plan
mod Tests
pub use Defs.{
  TransferError, invalid_challenge, invalid_address, invalid_amount, Result, ok, err, ◌>>=◌, ok_or,
  Split, Transfer, Parsers, max_splits, u256_mod,
}
unfoldable pub use Defs.{
  strip_hex_prefix, parse_memo_bytes_in_context, read_split, collect_splits, get_transfers,
}
