-- ===== src/Prelude/Printing.antt =====
-- Rust's `to_string` of an unsigned integer, and the number that digits are.
use mpp_rs.Prelude.Tests.{◌==◌, Bool-cases}
use mpp_rs.Prelude.Decimal.{is_ascii_digit, parse_digits, parse_unsigned, parse_codes}
use mpp_rs.Prelude.Texts.{Text, all_chars, trim_start}
use mpp_rs.Prelude.Words.{u128_mod}
use Prim.Native.Nat.{ℕ, zero, suc, compare, Ordering, ◌+◌, ◌-◌, ◌*◌, ◌/◌, ◌%◌, ◌≤◌, ◌<◌}
use mathlib.Core.Logic.{◌≢◌, inl, inr}
use mathlib.Core.Path.{◌≡◌, refl, sym, ap, ◌∙◌}
use mathlib.Core.Bool.{true}
use mathlib.Core.Option.{some}
use mathlib.Core.List.{[], ◌∷◌, ◌++◌, append-nil, append_assoc, concat-ne-nil}
use native.Mathlib.Omega.{arith}

-- The last digit stands behind the digits of the rest; `n` is fuel enough for `n`.
unfoldable pub decimal_from : ℕ → ℕ → Text
decimal_from zero n = (b'0' + n) ∷ []
decimal_from (suc fuel) n = elim (compare n 10) [
  | Ordering.lt ↦ (b'0' + n) ∷ []
  | _ ↦ decimal_from fuel (n / 10) ++ ((b'0' + n % 10) ∷ [])
]

unfoldable pub to_decimal : ℕ → Text
unfolding decimal_from
to_decimal n = decimal_from n n

-- The number that digits make behind those of `v`.
unfoldable pub value_from : ℕ → Text → ℕ
value_from v [] = v
value_from v (c ∷ cs) = value_from (v * 10 + (c - b'0')) cs

pub parse_digits-value :
    (v : ℕ) (cs : Text) (n : ℕ) → parse_digits v cs ≡ some n → n ≡ value_from v cs
unfolding parse_digits value_from
parse_digits-value v [] n e = ground arith
parse_digits-value v (c ∷ cs) n e = ground (arith, parse_digits-value (v * 10 + (c - b'0')) cs n)

decimal_from-fuel : (f g n : ℕ) → n ≤ f → n ≤ g → decimal_from f n ≡ decimal_from g n
unfolding decimal_from
decimal_from-fuel zero zero n hf hg = refl
decimal_from-fuel zero (suc g) n hf hg = ground arith
decimal_from-fuel (suc f) zero n hf hg = ground arith
decimal_from-fuel (suc f) (suc g) n hf hg = grind (arith, decimal_from-fuel f g (n / 10))

to_decimal-lt_ten : (n : ℕ) → n < 10 → to_decimal n ≡ (b'0' + n) ∷ []
unfolding to_decimal decimal_from
to_decimal-lt_ten zero h = refl
to_decimal-lt_ten (suc n) h = ground arith

to_decimal-ten : (n : ℕ) → 10 ≤ n → to_decimal n ≡ to_decimal (n / 10) ++ ((b'0' + n % 10) ∷ [])
unfolding to_decimal decimal_from
to_decimal-ten zero h = ground arith
to_decimal-ten (suc n) h = grind (arith, decimal_from-fuel n (suc n / 10) (suc n / 10))

pub to_decimal-snoc :
    (v k : ℕ) → 0 < v → k < 10 → to_decimal (v * 10 + k) ≡ to_decimal v ++ ((b'0' + k) ∷ [])
to_decimal-snoc v k hv hk = to_decimal-ten (v * 10 + k) (omega arith) ∙ rw (eq_div, eq_mod)
  where
    eq_div : (v * 10 + k) / 10 ≡ v
    eq_div = omega arith

    eq_mod : (v * 10 + k) % 10 ≡ k
    eq_mod = omega arith

-- Digits behind those of a positive number.
pub to_decimal-onto :
    (v : ℕ) (cs : Text)
    → 0 < v
    → all_chars is_ascii_digit cs ≡ true
    → to_decimal (value_from v cs) ≡ to_decimal v ++ cs
unfolding value_from all_chars
to_decimal-onto v [] hv h = sym (append-nil (to_decimal v))
to_decimal-onto v (c ∷ cs) hv h =
    to_decimal-onto (v * 10 + (c - b'0')) cs (omega arith) (ground arith)
    ∙ ap (λ u. u ++ cs) (to_decimal-snoc v (c - b'0') hv (ground arith))
    ∙ append_assoc (to_decimal v) ((b'0' + (c - b'0')) ∷ []) cs
    ∙ ap (λ x. to_decimal v ++ (x ∷ cs)) is_c
  where
    is_c : b'0' + (c - b'0') ≡ c
    is_c = ground arith

-- The text without the zeros in front, `0` if nothing is left: the number's own decimal.
abbrev pub or_zero : Text → Text
or_zero [] = b'0' ∷ []
or_zero (c ∷ cs) = c ∷ cs

pub or_zero-trim_start :
    (cs : Text)
    → all_chars is_ascii_digit cs ≡ true
    → or_zero (trim_start (λ c. c == b'0') cs) ≡ to_decimal (value_from 0 cs)
unfolding trim_start value_from all_chars
or_zero-trim_start [] h = sym (to_decimal-lt_ten 0 (omega arith))
or_zero-trim_start (c ∷ cs) h = elim (Bool-cases (c == b'0')) [
  | inl same ↦ grind (arith, or_zero-trim_start cs)
  | inr other ↦ rw other (
      sym (
        to_decimal-onto (0 * 10 + (c - b'0')) cs (ground arith) (ground arith)
        ∙ ap (λ u. u ++ cs) (to_decimal-lt_ten (0 * 10 + (c - b'0')) (ground arith))
        ∙ ap (λ x. x ∷ cs) is_c))
]
  where
    is_c : b'0' + (0 * 10 + (c - b'0')) ≡ c
    is_c = ground arith

pub value_from-append :
    (v : ℕ) (cs ds : Text) → value_from v (cs ++ ds) ≡ value_from (value_from v cs) ds
unfolding value_from
value_from-append v [] ds = refl
value_from-append v (c ∷ cs) ds = value_from-append (v * 10 + (c - b'0')) cs ds

parse_digits-snoc :
    (v : ℕ) (cs : Text) (n k : ℕ)
    → parse_digits v cs ≡ some n
    → k < 10
    → n * 10 + k < u128_mod
    → parse_digits v (cs ++ ((b'0' + k) ∷ [])) ≡ some (n * 10 + k)
unfolding parse_digits
parse_digits-snoc v [] n k e hk hn = ground arith
parse_digits-snoc v (c ∷ cs) n k e hk hn =
    ground (arith, parse_digits-snoc (v * 10 + (c - b'0')) cs n k)

parse_digits-decimal_from :
    (f n : ℕ) → n ≤ f → n < u128_mod → parse_digits 0 (decimal_from f n) ≡ some n
unfolding decimal_from parse_digits
parse_digits-decimal_from zero n hf hn = ground arith
parse_digits-decimal_from (suc f) n hf hn = ground (
  arith,
  parse_digits-decimal_from f (n / 10),
  parse_digits-snoc 0 (decimal_from f (n / 10)) (n / 10) (n % 10),
)

decimal_from-ne-nil : (f n : ℕ) → decimal_from f n ≢ []
unfolding decimal_from
decimal_from-ne-nil zero n e = cc
decimal_from-ne-nil (suc f) n e =
    ground (arith, concat-ne-nil (b'0' + n % 10) (decimal_from f (n / 10)))

parse_codes-digits :
    (cs : Text) (n : ℕ) → cs ≢ [] → parse_digits 0 cs ≡ some n → parse_codes cs ≡ some n
unfolding parse_codes parse_unsigned parse_digits
parse_codes-digits [] n h e = absurd (h refl)
parse_codes-digits (c ∷ cs) n h e = ground arith

-- What `to_string` writes, `parse` reads.
pub parse_codes-to_decimal : (n : ℕ) → n < u128_mod → parse_codes (to_decimal n) ≡ some n
unfolding to_decimal
parse_codes-to_decimal n h =
    parse_codes-digits (decimal_from n n) n (decimal_from-ne-nil n n)
      (parse_digits-decimal_from n n (omega arith) h)
