-- ===== src/Prelude.antt =====
-- The names that every module shares: the libraries', passed on, Boolean tests and the conditional,
-- lists over the native numbers, and Rust's fixed-width arithmetic.
mod Tests
mod Lists
mod Words
mod Decimal
mod Hex
mod Texts
mod Printing
mod Bits
pub mod Results
pub use Tests.*
pub use Lists.*
pub use Words.{u64_mod, u128_mod, checked_add, checked_mul, add_u128-eq_add, add_u64-eq_add}
unfoldable pub use Words.{add_u64, add_u128}
pub use Decimal.{codes, is_ascii_digit, parse_digits-lt, parse_u128-lt}
unfoldable pub use Decimal.{parse_digits, parse_unsigned, parse_codes, parse_u128}
unfoldable pub use Hex.{strip_0x}
pub use Texts.{
  Text, is_empty, bytes_eq_iff, is_whitespace, utf8_len, byte_len, keep_end, extend_pair,
  extend_first, to_ascii_lowercase,
}
unfoldable pub use Texts.{
  bytes_eq, all_chars, trim_start, trim_end, trim, split_once, split, eq_ignore_ascii_case,
  strip_prefix,
}
pub use Printing.{
  or_zero, or_zero-trim_start, value_from-append, parse_digits-value, parse_codes-to_decimal,
}
unfoldable pub use Printing.{to_decimal, value_from}
pub use Bits.{bit_or-eq-zero, bit_xor-eq-zero, bit_or_zero, bit_xor_self, as_bytes-injective}
unfoldable pub use Bits.{utf8_bytes, as_bytes}
pub use Prim.Native.Nat.{bit_or, bit_xor, ℕ, zero, suc, ◌+◌, ◌-◌, ◌*◌, ◌/◌, ◌%◌, ◌^◌, ◌≤◌, ◌<◌, max}
pub use Prim.Native.Char.{code}
pub use Prim.Native.String.{String}
pub use mathlib.Core.Path.{◌≡◌, refl, sym, ap, ◌∙◌}
pub use mathlib.Core.Logic.{◌≢◌, ◌↔◌, ◌⊎◌, inl, inr}
pub use mathlib.Core.Bool.{Bool, true, false, not, ◌&&◌, ◌||◌}
pub use mathlib.Core.Option.{Option, none, some}
pub use mathlib.Core.List.{List, [], ◌∷◌, ◌++◌, map}
pub use native.Mathlib.Omega.{arith}
pub use text.Mathlib.Text.{◌==◌ as str_eq}
pub use text.Mathlib.TextEquality.{eq_iff}
pub use text.Mathlib.TextPositions.{eq_refl}
