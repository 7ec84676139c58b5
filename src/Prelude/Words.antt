-- ===== src/Prelude/Words.antt =====
-- Rust's `u64` and `u128`: a sum keeps its wrap-around, a checked operation returns an option.
use Prim.Native.Nat.{ℕ, ◌+◌, ◌*◌, ◌%◌, ◌^◌, ◌<◌}
use mathlib.Core.Path.{◌≡◌}
use mathlib.Core.Option.{Option, none, some}
use native.Mathlib.Omega.{arith}
use mpp_rs.Prelude.Tests.{ltb, if◌then◌else◌}

abbrev pub u64_mod : ℕ
u64_mod = 2 ^ 64

abbrev pub u128_mod : ℕ
u128_mod = 2 ^ 128

unfoldable pub add_u64 : ℕ → ℕ → ℕ
add_u64 a b = (a + b) % u64_mod

unfoldable pub add_u128 : ℕ → ℕ → ℕ
add_u128 a b = (a + b) % u128_mod

-- `checked_add` and `checked_mul` below a modulus.
abbrev pub checked_add : ℕ → ℕ → ℕ → Option ℕ
checked_add m a b = if ltb (a + b) m then some (a + b) else none

abbrev pub checked_mul : ℕ → ℕ → ℕ → Option ℕ
checked_mul m a b = if ltb (a * b) m then some (a * b) else none

pub add_u128-eq_add : (a b : ℕ) → a + b < u128_mod → add_u128 a b ≡ a + b
unfolding add_u128
add_u128-eq_add a b h = omega arith

pub add_u64-eq_add : (a b : ℕ) → a + b < u64_mod → add_u64 a b ≡ a + b
unfolding add_u64
add_u64-eq_add a b h = omega arith
