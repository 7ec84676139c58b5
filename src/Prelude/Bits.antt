-- ===== src/Prelude/Bits.antt =====
-- When an "or" and an "exclusive or" are zero, and the bytes of a text in UTF-8.
use Prim.Native.Nat.{
  ℕ, zero, suc, ◌+◌, ◌/◌, ◌%◌, ◌≤◌, max, two, digits, differ, bit_or, bit_xor, bit_or-bitwise,
  bit_xor-bitwise,
}
use mathlib.Core.Path.{◌≡◌, refl, sym, ◌∙◌}
use mathlib.Core.Logic.{◌≢◌}
use mathlib.Core.List.{List, [], ◌∷◌, ◌++◌}
use native.Mathlib.Omega.{arith}
use mpp_rs.Prelude.Tests.{ltb, if◌then◌else◌}
use mpp_rs.Prelude.Texts.{Text}

max-zero : (a b : ℕ) → max a b ≡ 0 → (a ≡ 0) × (b ≡ 0)
max-zero a b e = (omega arith, omega arith)

differ_self : (a : ℕ) → differ a a ≡ 0
differ_self zero = refl
differ_self (suc a) = differ_self a

differ-zero : (a b : ℕ) → differ a b ≡ 0 → a ≡ b
differ-zero zero b e = sym e
differ-zero (suc a) zero e = e
differ-zero (suc a) (suc b) e = omega (arith, differ-zero a b e)

digits-or_zero : (n a b : ℕ) → a ≤ n → digits (λ d. d) max n a b ≡ 0 → (a ≡ 0) × (b ≡ 0)
digits-or_zero zero zero b h e = (refl, e)
digits-or_zero zero (suc a) b h e = absurd (omega arith)
digits-or_zero (suc n) zero b h e = (refl, e)
digits-or_zero (suc n) (suc a) b h e =
    let low = max-zero (suc a % two) (b % two) (omega (arith, e)) in
    let high = digits-or_zero n (suc a / two) (b / two) (omega arith) (omega (arith, e)) in
    (omega (arith, low, high), omega (arith, low, high))

digits-differ_zero : (n a b : ℕ) → a ≤ n → digits (λ d. d) differ n a b ≡ 0 → a ≡ b
digits-differ_zero zero zero b h e = sym e
digits-differ_zero zero (suc a) b h e = absurd (omega arith)
digits-differ_zero (suc n) zero b h e = sym e
digits-differ_zero (suc n) (suc a) b h e =
    let low = differ-zero (suc a % two) (b % two) (omega (arith, e)) in
    let high = digits-differ_zero n (suc a / two) (b / two) (omega arith) (omega (arith, e)) in
    omega (arith, low, high)

pub bit_or-eq-zero : (a b : ℕ) → bit_or a b ≡ 0 → (a ≡ 0) × (b ≡ 0)
bit_or-eq-zero a b e = digits-or_zero a a b (omega arith) (sym (bit_or-bitwise a b) ∙ e)

pub bit_xor-eq-zero : (a b : ℕ) → bit_xor a b ≡ 0 → a ≡ b
bit_xor-eq-zero a b e = digits-differ_zero a a b (omega arith) (sym (bit_xor-bitwise a b) ∙ e)

pub bit_or_zero : bit_or 0 0 ≡ 0
bit_or_zero = refl

pub bit_xor_self : (a : ℕ) → bit_xor a a ≡ 0
bit_xor_self a = bit_xor-bitwise a a ∙ same a a (omega arith)
  where
    same : (n c : ℕ) → c ≤ n → digits (λ d. d) differ n c c ≡ 0
    same zero zero h = refl
    same zero (suc c) h = absurd (omega arith)
    same (suc n) zero h = refl
    same (suc n) (suc c) h =
        omega (arith, same n (suc c / two) (omega arith), differ_self (suc c % two))

-- The bytes of UTF-8.
unfoldable pub utf8_bytes : ℕ → List ℕ
utf8_bytes c =
    if ltb c 0x80
    then c ∷ []
    else if ltb c 0x800
    then (0xc0 + c / 64) ∷ (0x80 + c % 64) ∷ []
    else if ltb c 0x10000
    then (0xe0 + c / 4096) ∷ (0x80 + c / 64 % 64) ∷ (0x80 + c % 64) ∷ []
    else (0xf0 + c / 262144) ∷ (0x80 + c / 4096 % 64) ∷ (0x80 + c / 64 % 64) ∷ (0x80 + c % 64) ∷ []

unfoldable pub as_bytes : Text → List ℕ
unfolding utf8_bytes
as_bytes [] = []
as_bytes (c ∷ cs) = utf8_bytes c ++ as_bytes cs

utf8_bytes_cancel :
    (c d : ℕ) (xs ys : List ℕ) → utf8_bytes c ++ xs ≡ utf8_bytes d ++ ys → (c ≡ d) × (xs ≡ ys)
unfolding utf8_bytes
utf8_bytes_cancel c d xs ys e = ground arith

utf8_bytes-ne-nil : (c : ℕ) (xs : List ℕ) → utf8_bytes c ++ xs ≢ []
unfolding utf8_bytes
utf8_bytes-ne-nil c xs e = ground arith

pub as_bytes-injective : (s t : Text) → as_bytes s ≡ as_bytes t → s ≡ t
unfolding as_bytes
as_bytes-injective [] [] e = refl
as_bytes-injective [] (d ∷ ds) e = absurd (utf8_bytes-ne-nil d (as_bytes ds) (sym e))
as_bytes-injective (c ∷ cs) [] e = absurd (utf8_bytes-ne-nil c (as_bytes cs) e)
as_bytes-injective (c ∷ cs) (d ∷ ds) e =
    grind (arith, utf8_bytes_cancel c d (as_bytes cs) (as_bytes ds) e, as_bytes-injective cs ds)
