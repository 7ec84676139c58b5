-- ===== src/Amounts/Tests.antt =====
-- Amounts of a dollar, and what `parse_units` makes of a text that is none.
use mpp_rs.Prelude.{
  ◌≡◌, refl, Text, codes, split_once, split, trim, trim_start, trim_end, all_chars, parse_codes,
  parse_unsigned, parse_digits, to_decimal,
}
use mpp_rs.Prelude.Results.{ok}
use mpp_rs.Amounts.Defs.{
  parse_dollar_amount, parse_units, combine_parts, part_value, base_units, pad_zeros,
}
use mpp_rs.Amounts.Units.{IsExact, parse_units-parse_dollar_amount, parse_dollar_amount-IsExact}

abbrev one_and_a_half : Text
one_and_a_half = codes "1.50"

one_and_a_half-trim : trim one_and_a_half ≡ one_and_a_half
unfolding trim trim_start trim_end
one_and_a_half-trim = refl

one_and_a_half-run : parse_dollar_amount one_and_a_half 6 ≡ ok (codes "1500000")
unfolding parse_dollar_amount combine_parts part_value base_units trim trim_start trim_end
    split_once all_chars parse_codes parse_unsigned parse_digits to_decimal
one_and_a_half-run = refl

parse_units-parse_dollar_amount_example : parse_units one_and_a_half 6 ≡ ok (codes "1500000")
parse_units-parse_dollar_amount_example =
    parse_units-parse_dollar_amount one_and_a_half 6 (codes "1500000") one_and_a_half-trim
      one_and_a_half-run

parse_dollar_amount-IsExact_example : IsExact (trim one_and_a_half) 6 (codes "1500000")
parse_dollar_amount-IsExact_example =
    parse_dollar_amount-IsExact one_and_a_half 6 (codes "1500000") one_and_a_half-run

unchecked_units : parse_units (codes "-1.x") 2 ≡ ok (codes "-1x0")
unfolding parse_units split trim_start pad_zeros
unchecked_units = refl
