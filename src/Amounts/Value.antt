-- ===== src/Amounts/Value.antt =====
-- The number that the digits of an amount make.
use mpp_rs.Prelude.{
  ℕ, zero, suc, ◌+◌, ◌-◌, ◌*◌, ◌^◌, ◌<◌, ◌≡◌, refl, sym, ap, ◌∙◌, Text, true, some, [], ◌∷◌, length,
  is_ascii_digit, all_chars, parse_codes, parse_unsigned, byte_len, value_from, parse_digits-value,
  u128_mod, arith,
}
use native.Mathlib.Nat.{pow-succ'}
use mpp_rs.Amounts.Defs.{part_value, base_units, zeros}

shift : (v x k : ℕ) → (v * 10 + x) * 10 ^ k ≡ v * 10 ^ suc k + x * 10 ^ k
shift v x k = spread (10 ^ k) ∙ ap (λ m. v * m + x * 10 ^ k) (sym (pow-succ' 10 k))
  where
    spread : (m : ℕ) → (v * 10 + x) * m ≡ v * (10 * m) + x * m
    spread m = omega arith

pub value_from-eq_sum : (v : ℕ) (cs : Text) → value_from v cs ≡ v * 10 ^ length cs + value_from 0 cs
unfolding value_from
value_from-eq_sum v [] = omega arith
value_from-eq_sum v (c ∷ cs) = grind (
  arith,
  value_from-eq_sum (v * 10 + (c - b'0')) cs,
  value_from-eq_sum (0 * 10 + (c - b'0')) cs,
  shift v (c - b'0') (length cs),
  shift 0 (c - b'0') (length cs),
)

pub value_from-zeros : (v k : ℕ) → value_from v (zeros k) ≡ v * 10 ^ k
unfolding value_from
value_from-zeros v zero = omega arith
value_from-zeros v (suc k) = value_from-zeros (v * 10 + 0) k ∙ omega (arith, shift v 0 k)

pub byte_len-digits : (cs : Text) → all_chars is_ascii_digit cs ≡ true → byte_len cs ≡ length cs
unfolding all_chars
byte_len-digits [] h = refl
byte_len-digits (c ∷ cs) h = ground (arith, byte_len-digits cs)

pub part_value-digits :
    (cs : Text) (n : ℕ)
    → all_chars is_ascii_digit cs ≡ true
    → part_value cs ≡ some n
    → n ≡ value_from 0 cs
unfolding part_value parse_codes parse_unsigned all_chars value_from
part_value-digits [] n h e = ground arith
part_value-digits (c ∷ cs) n h e = ground (arith, parse_digits-value 0 (c ∷ cs) n)

pub base_units-some :
    (i f s k n : ℕ) → base_units i f s k ≡ some n → (n ≡ i * s + f * k) × (n < u128_mod)
unfolding base_units
base_units-some i f s k n e = ground arith
