-- ===== src/Amounts/Defs.antt =====
-- server/amount.rs and `parse_units` of protocol/intents/mod.rs: decimal amounts in base units.
use mpp_rs.Prelude.{
  ℕ, zero, suc, ◌-◌, ◌^◌, Text, Bool, false, not, ◌&&◌, Option, none, some, List, [], ◌∷◌, ◌++◌,
  length, is_empty, is_ascii_digit, all_chars, parse_codes, trim, trim_start, split, split_once,
  byte_len, ltb, ◌==◌, checked_add, checked_mul, u128_mod, to_decimal, or_zero,
}
use mpp_rs.Prelude.Results.{Result, ok, ◌>>=◌, ◌>>◌, ok_or, err_if}

pub data AmountError : Type 0 where
  empty_amount : AmountError
  invalid_format : Text → AmountError
  too_many_decimals : ℕ → ℕ → AmountError
  zero_or_negative : AmountError
  overflow : AmountError

abbrev pub starts_with_minus : Text → Bool
starts_with_minus [] = false
starts_with_minus (c ∷ cs) = c == b'-'

abbrev pub or_whole : Text → Option (Text × Text) → Text × Text
or_whole amount none = (amount, [])
or_whole amount (some parts) = parts

-- `0` for the empty text, else `str::parse::<u128>`.
unfoldable pub part_value : Text → Option ℕ
part_value [] = some 0
part_value (c ∷ cs) = parse_codes (c ∷ cs)

abbrev pub and_then : Option ℕ → (ℕ → Option ℕ) → Option ℕ
and_then none next = none
and_then (some n) next = next n

-- `int_val.checked_mul(scale).and_then(|v| v.checked_add(frac_val.checked_mul(frac_scale)?))`
unfoldable pub base_units : ℕ → ℕ → ℕ → ℕ → Option ℕ
base_units int_val frac_val scale frac_scale =
    and_then (checked_mul u128_mod int_val scale)
      λ v. and_then (checked_mul u128_mod frac_val frac_scale) λ f. checked_add u128_mod v f

-- What follows the split of the amount in its two parts.
unfoldable pub combine_parts : Text → Text → Text → ℕ → Result AmountError Text
unfolding part_value base_units
combine_parts amount integer_part frac_part decimals =
    err_if (is_empty integer_part && is_empty frac_part) (invalid_format amount)
    >> err_if (not (is_empty integer_part) && not (all_chars is_ascii_digit integer_part))
        (invalid_format amount)
    >> err_if (not (is_empty frac_part) && not (all_chars is_ascii_digit frac_part))
        (invalid_format amount)
    >> err_if (ltb decimals (byte_len frac_part)) (too_many_decimals (byte_len frac_part) decimals)
    >> (ok_or (part_value integer_part) (invalid_format amount) >>= λ int_val.
        ok_or (part_value frac_part) (invalid_format amount) >>= λ frac_val.
        err_if (ltb 38 decimals) overflow
        >> (ok_or
              (base_units int_val frac_val (10 ^ decimals) (10 ^ (decimals - byte_len frac_part)))
              overflow
            >>= λ n. ok (to_decimal n)))

unfoldable pub parse_dollar_amount : Text → ℕ → Result AmountError Text
unfolding combine_parts trim
parse_dollar_amount text decimals =
    let amount = trim text in
    let parts = or_whole amount (split_once b'.' amount) in
    err_if (is_empty amount) empty_amount
    >> err_if (starts_with_minus amount) zero_or_negative
    >> combine_parts amount parts.0 parts.1 decimals

-- The errors of `parse_units`, which are messages of one constructor in the code.
pub data UnitsError : Type 0 where
  empty_units : UnitsError
  invalid_units : Text → UnitsError
  too_many_units_decimals : Text → ℕ → UnitsError

abbrev pub zeros : ℕ → Text
zeros zero = []
zeros (suc n) = b'0' ∷ zeros n

-- `{:0<width$}`, which counts characters.
unfoldable pub pad_zeros : ℕ → Text → Text
pad_zeros width s = s ++ zeros (width - length s)

abbrev pub parts_of : List Text → Option (Text × Text)
parts_of [] = none
parts_of (integer_part ∷ []) = some (integer_part, [])
parts_of (integer_part ∷ fraction_part ∷ []) = some (integer_part, fraction_part)
parts_of (integer_part ∷ fraction_part ∷ other ∷ others) = none

unfoldable pub parse_units : Text → ℕ → Result UnitsError Text
unfolding pad_zeros
parse_units amount decimals =
    err_if (is_empty amount) empty_units
    >> (ok_or (parts_of (split b'.' amount)) (invalid_units amount) >>= λ parts.
        err_if (ltb decimals (byte_len parts.1)) (too_many_units_decimals amount decimals)
        >> ok (or_zero (trim_start (λ c. c == b'0') (parts.0 ++ pad_zeros decimals parts.1))))
