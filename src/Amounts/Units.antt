-- ===== src/Amounts/Units.antt =====
-- The two conversions to base units compared: server/amount.rs and `parse_units` of
-- protocol/intents/mod.rs.
use mpp_rs.Prelude.{
  ℕ, zero, suc, ◌+◌, ◌-◌, ◌*◌, ◌^◌, ◌<◌, ◌≤◌, ◌≡◌, refl, sym, ap, ◌∙◌, Text, true, false, not, ◌&&◌,
  some, [], ◌∷◌, ◌++◌, length, is_ascii_digit, is_empty, all_chars, parse_codes,
  parse_codes-to_decimal, byte_len, value_from, split, split_once, trim, trim_start, ◌==◌,
  value_from-append, u128_mod, to_decimal, or_zero, or_zero-trim_start, arith,
}
use native.Mathlib.Nat.{pow-succ', mul_assoc}
use mpp_rs.Prelude.Results.{ok, ◌>>◌, err_if, err_if-ok}
use mpp_rs.Amounts.Defs.{
  empty_amount, zero_or_negative, starts_with_minus, or_whole, combine_parts, parse_dollar_amount,
  zeros, pad_zeros, parts_of, parse_units,
}
use mpp_rs.Amounts.Value.{
  value_from-eq_sum, value_from-zeros, byte_len-digits, part_value-digits, base_units-some,
}

-- What the texts of the two parts are when the server takes an amount, and what it returns.
unfoldable pub IsScaled : Text → Text → ℕ → Text → Type 0
IsScaled i f d r =
    (all_chars is_ascii_digit i ≡ true)
    × (all_chars is_ascii_digit f ≡ true)
    × (byte_len f ≤ d)
    × (value_from 0 (i ++ pad_zeros d f) < u128_mod)
    × (r ≡ to_decimal (value_from 0 (i ++ pad_zeros d f)))

-- `n` is the amount in base units: `i` before the point and `f` behind it.
unfoldable pub IsExact : Text → ℕ → Text → Type 0
IsExact amount d r =
    (n : ℕ) × (parse_codes r ≡ some n)
    × (n < u128_mod)
    × (let parts = or_whole amount (split_once b'.' amount) in
        (length parts.1 ≤ d)
        × (all_chars is_ascii_digit parts.0 ≡ true)
        × (all_chars is_ascii_digit parts.1 ≡ true)
        × (n ≡ value_from 0 parts.0 * 10 ^ d + value_from 0 parts.1 * 10 ^ (d - length parts.1)))

unless_digits :
    (s : Text)
    → (not (is_empty s) && not (all_chars is_ascii_digit s)) ≡ false
    → all_chars is_ascii_digit s ≡ true
unfolding all_chars
unless_digits [] e = refl
unless_digits (c ∷ cs) e = ground arith

pow-mul : (a k : ℕ) → 10 ^ a * 10 ^ k ≡ 10 ^ (a + k)
pow-mul zero k = grind arith
pow-mul (suc a) k =
    ap (λ m. m * 10 ^ k) (pow-succ' 10 a)
    ∙ mul_assoc 10 (10 ^ a) (10 ^ k)
    ∙ ap (λ m. 10 * m) (pow-mul a k)
    ∙ sym (pow-succ' 10 (a + k))
    ∙ ap (λ m. 10 ^ m) same
  where
    same : suc (a + k) ≡ suc a + k
    same = omega arith

value_from-pad_zeros :
    (i f : Text) (d : ℕ)
    → length f ≤ d
    → value_from 0 (i ++ pad_zeros d f)
      ≡ value_from 0 i * 10 ^ d + value_from 0 f * 10 ^ (d - length f)
unfolding pad_zeros
value_from-pad_zeros i f d h =
    value_from-append 0 i (f ++ zeros k)
    ∙ value_from-append v f (zeros k)
    ∙ value_from-zeros (value_from v f) k
    ∙ ap (λ m. m * 10 ^ k) (value_from-eq_sum v f)
    ∙ spread (10 ^ length f) (10 ^ k)
    ∙ ap (λ m. v * m + value_from 0 f * 10 ^ k) powers
  where
    k : ℕ
    k = d - length f

    v : ℕ
    v = value_from 0 i

    spread : (a b : ℕ) → (v * a + value_from 0 f) * b ≡ v * (a * b) + value_from 0 f * b
    spread a b = omega arith

    powers : 10 ^ length f * 10 ^ k ≡ 10 ^ d
    powers = pow-mul (length f) k ∙ grind arith

combine_parts-IsScaled :
    (amount i f : Text) (d : ℕ) (r : Text) → combine_parts amount i f d ≡ ok r → IsScaled i f d r
unfolding combine_parts IsScaled
combine_parts-IsScaled amount i f d r e = grind (
  arith,
  unless_digits i,
  unless_digits f,
  part_value-digits i,
  part_value-digits f,
  value_from-pad_zeros i f d,
  byte_len-digits f,
  base_units-some,
)

split-digits : (cs : Text) → all_chars is_ascii_digit cs ≡ true → split b'.' cs ≡ cs ∷ []
unfolding split all_chars
split-digits [] h = refl
split-digits (c ∷ cs) h = ground (arith, split-digits cs)

-- With digits behind the first point there is no second one.
parts_of-split :
    (s : Text)
    → all_chars is_ascii_digit (or_whole s (split_once b'.' s)).1 ≡ true
    → parts_of (split b'.' s) ≡ some (or_whole s (split_once b'.' s))
unfolding split split_once
parts_of-split [] h = refl
parts_of-split (c ∷ cs) h = grind (arith, split-digits cs, parts_of-split cs)

pub parse_dollar_amount-parts :
    (t : Text) (d : ℕ) (r : Text)
    → parse_dollar_amount t d ≡ ok r
    → (is_empty (trim t) ≡ false)
      × (let parts = or_whole (trim t) (split_once b'.' (trim t)) in IsScaled parts.0 parts.1 d r)
unfolding parse_dollar_amount
parse_dollar_amount-parts t d r e =
    let amount = trim t in
    let parts = or_whole amount (split_once b'.' amount) in
    let h =
      err_if-ok (is_empty amount) empty_amount
        (err_if (starts_with_minus amount) zero_or_negative
          >> combine_parts amount parts.0 parts.1 d)
        r e in
    let h' =
      err_if-ok (starts_with_minus amount) zero_or_negative (combine_parts amount parts.0 parts.1 d)
        r h.1 in
    (h.0, combine_parts-IsScaled amount parts.0 parts.1 d r h'.1)

parse_units-parts :
    (s i f : Text) (d : ℕ)
    → is_empty s ≡ false
    → parts_of (split b'.' s) ≡ some (i, f)
    → byte_len f ≤ d
    → parse_units s d ≡ ok (or_zero (trim_start (λ c. c == b'0') (i ++ pad_zeros d f)))
unfolding parse_units
parse_units-parts s i f d hs hp hf = rw (hs, hp) (ground arith)

digits-append :
    (cs ds : Text)
    → all_chars is_ascii_digit cs ≡ true
    → all_chars is_ascii_digit ds ≡ true
    → all_chars is_ascii_digit (cs ++ ds) ≡ true
unfolding all_chars
digits-append [] ds hc hd = hd
digits-append (c ∷ cs) ds hc hd = ground (arith, digits-append cs ds)

digits-zeros : (k : ℕ) → all_chars is_ascii_digit (zeros k) ≡ true
unfolding all_chars
digits-zeros zero = refl
digits-zeros (suc k) = digits-zeros k

-- Where the server takes an amount without blanks around it, `parse_units` gives the same text.
pub parse_units-parse_dollar_amount :
    (s : Text) (d : ℕ) (r : Text)
    → trim s ≡ s
    → parse_dollar_amount s d ≡ ok r
    → parse_units s d ≡ ok r
unfolding parse_dollar_amount parse_units IsScaled pad_zeros
parse_units-parse_dollar_amount s d r h e =
    let parts = or_whole s (split_once b'.' s) in
    let (nonempty, (digits_i, digits_f, short, _, value)) =
      rw h at (parse_dollar_amount-parts s d r e) in
    parse_units-parts s parts.0 parts.1 d nonempty (parts_of-split s digits_f) short
    ∙ ap ok (
        or_zero-trim_start (parts.0 ++ pad_zeros d parts.1) (
          digits-append parts.0 (pad_zeros d parts.1) digits_i (
            digits-append parts.1 (zeros (d - length parts.1)) digits_f
              (digits-zeros (d - length parts.1))))
        ∙ sym value)

-- What the server takes is a whole part and at most `d` decimals, digits only; the text it returns
-- is a `u128` that reads back as the amount times `10 ^ d`.
pub parse_dollar_amount-IsExact :
    (t : Text) (d : ℕ) (r : Text) → parse_dollar_amount t d ≡ ok r → IsExact (trim t) d r
unfolding IsExact IsScaled
parse_dollar_amount-IsExact t d r e =
    let parts = or_whole (trim t) (split_once b'.' (trim t)) in
    let (_, (digits_i, digits_f, short, small, value)) = parse_dollar_amount-parts t d r e in
    let short' = rw (byte_len-digits parts.1 digits_f) at short in
    (
      value_from 0 (parts.0 ++ pad_zeros d parts.1),
      rw value (parse_codes-to_decimal _ small),
      small,
      (short', digits_i, digits_f, value_from-pad_zeros parts.0 parts.1 d short'),
    )
