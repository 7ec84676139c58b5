-- ===== src/Prelude/Decimal.antt =====
-- Rust's `u128::from_str`: an optional `+`, then digits, with a check for overflow at each.
use Prim.Native.Nat.{ℕ, ◌+◌, ◌-◌, ◌*◌, ◌<◌}
use Prim.Native.Char.{code}
use Prim.Native.String.{String}
use mathlib.Core.Path.{◌≡◌}
use mathlib.Core.Bool.{Bool, ◌&&◌}
use mathlib.Core.Option.{Option, none, some}
use mathlib.Core.List.{List, [], ◌∷◌}
use native.Mathlib.Omega.{arith}
use mpp_rs.Prelude.Tests.{ltb, leb, ◌==◌, if◌then◌else◌}
use mpp_rs.Prelude.Words.{u128_mod}

-- The code points of a text.
abbrev pub codes : String → List ℕ
codes String.[] = []
codes (String.◌∷◌ c s) = code c ∷ codes s

abbrev pub is_ascii_digit : ℕ → Bool
is_ascii_digit c = leb b'0' c && leb c b'9'

unfoldable pub parse_digits : ℕ → List ℕ → Option ℕ
parse_digits acc [] = some acc
parse_digits acc (c ∷ cs) =
    if is_ascii_digit c && ltb (acc * 10 + (c - b'0')) u128_mod
    then parse_digits (acc * 10 + (c - b'0')) cs
    else none

-- One digit at least.
unfoldable pub parse_unsigned : List ℕ → Option ℕ
unfolding parse_digits
parse_unsigned [] = none
parse_unsigned (c ∷ cs) = parse_digits 0 (c ∷ cs)

unfoldable pub parse_codes : List ℕ → Option ℕ
unfolding parse_unsigned
parse_codes [] = none
parse_codes (c ∷ cs) = if c == b'+' then parse_unsigned cs else parse_unsigned (c ∷ cs)

unfoldable pub parse_u128 : String → Option ℕ
unfolding parse_codes
parse_u128 s = parse_codes (codes s)

pub parse_digits-lt :
    (acc : ℕ) (cs : List ℕ) (n : ℕ) → acc < u128_mod → parse_digits acc cs ≡ some n → n < u128_mod
unfolding parse_digits
parse_digits-lt acc [] n h e = ground arith
parse_digits-lt acc (c ∷ cs) n h e = ground (arith, parse_digits-lt (acc * 10 + (c - b'0')) cs n)

parse_unsigned-lt : (cs : List ℕ) (n : ℕ) → parse_unsigned cs ≡ some n → n < u128_mod
unfolding parse_unsigned
parse_unsigned-lt [] n e = ground arith
parse_unsigned-lt (c ∷ cs) n e = parse_digits-lt 0 (c ∷ cs) n (omega arith) e

parse_codes-lt : (cs : List ℕ) (n : ℕ) → parse_codes cs ≡ some n → n < u128_mod
unfolding parse_codes
parse_codes-lt [] n e = ground arith
parse_codes-lt (c ∷ cs) n e = ground (arith, parse_unsigned-lt cs n, parse_unsigned-lt (c ∷ cs) n)

pub parse_u128-lt : (s : String) (n : ℕ) → parse_u128 s ≡ some n → n < u128_mod
unfolding parse_u128
parse_u128-lt s n e = parse_codes-lt (codes s) n e
