-- ===== src/Server/Ids.antt =====
-- The comparison of ids in src/protocol/core/challenge.rs, and what the text under an id's HMAC tells
-- apart.
use mpp_rs.Prelude.{
  ℕ, Text, Bool, true, not, ◌&&◌, Option, none, some, List, [], ◌∷◌, ◌++◌, ◌==◌, ◌≡◌, refl, length,
  bit_or, bit_xor, bit_or-eq-zero, bit_xor-eq-zero, bit_or_zero, bit_xor_self, as_bytes,
  as_bytes-injective, all_chars, is_empty, arith,
}
use mpp_rs.Server.Challenge.{ChallengeEcho, or_empty, hmac_input, xor_all, constant_time_eq}

xor_all-zero :
    (r : ℕ) (xs ys : List ℕ) → length xs ≡ length ys → xor_all r xs ys ≡ 0 → (r ≡ 0) × (xs ≡ ys)
xor_all-zero r [] [] h e = (e, refl)
xor_all-zero r [] (y ∷ ys) h e = absurd (omega arith)
xor_all-zero r (x ∷ xs) [] h e = absurd (omega arith)
xor_all-zero r (x ∷ xs) (y ∷ ys) h e =
    let (folded, rest) = xor_all-zero (bit_or r (bit_xor x y)) xs ys (omega arith) e in
    let (start, same) = bit_or-eq-zero r (bit_xor x y) folded in
    let head : x ≡ y = bit_xor-eq-zero x y same in (start, cc)

xor_all_self : (xs : List ℕ) → xor_all 0 xs xs ≡ 0
xor_all_self [] = refl
xor_all_self (x ∷ xs) = rw (bit_xor_self x, bit_or_zero) (xor_all_self xs)

-- The comparison without an early exit is equality.
pub constant_time_eq-true : (a b : Text) → constant_time_eq a b ≡ true → a ≡ b
unfolding constant_time_eq
constant_time_eq-true a b e =
    as_bytes-injective a b
      (xor_all-zero 0 (as_bytes a) (as_bytes b) (ground arith) (ground arith)).1

pub constant_time_eq_self : (a : Text) → constant_time_eq a a ≡ true
unfolding constant_time_eq
constant_time_eq_self a = ground (arith, xor_all_self (as_bytes a))

-- Texts without the separator, which a present optional field is besides not empty.
abbrev pub is_field : Text → Bool
is_field s = all_chars (λ c. not (c == b'|')) s

abbrev pub is_optional_field : Option Text → Bool
is_optional_field none = true
is_optional_field (some s) = not (is_empty s) && is_field s

abbrev pub IsPlain : ChallengeEcho → Type 0
IsPlain e =
    (is_field e.realm ≡ true)
    × (is_field e.method ≡ true)
    × (is_field e.intent ≡ true)
    × (is_field e.request ≡ true)
    × (is_optional_field e.expires ≡ true)
    × (is_optional_field e.digest ≡ true)
    × (is_optional_field e.opaque ≡ true)

abbrev pub input_of : ChallengeEcho → Text
input_of e = hmac_input e.realm e.method e.intent e.request e.expires e.digest e.opaque

bar-injective :
    (s t u v : Text)
    → is_field s ≡ true
    → is_field t ≡ true
    → s ++ (b'|' ∷ u) ≡ t ++ (b'|' ∷ v)
    → (s ≡ t) × (u ≡ v)
unfolding all_chars
bar-injective [] [] u v hs ht e = (refl, cc)
bar-injective [] (d ∷ t) u v hs ht e = ground arith
bar-injective (c ∷ s) [] u v hs ht e = ground arith
bar-injective (c ∷ s) (d ∷ t) u v hs ht e = grind (arith, bar-injective s t u v)

or_empty-is_field : (o : Option Text) → is_optional_field o ≡ true → is_field (or_empty o) ≡ true
unfolding all_chars
or_empty-is_field none h = refl
or_empty-is_field (some s) h = ground arith

or_empty-injective :
    (o p : Option Text)
    → is_optional_field o ≡ true
    → is_optional_field p ≡ true
    → or_empty o ≡ or_empty p
    → o ≡ p
or_empty-injective none none ho hp e = refl
or_empty-injective none (some t) ho hp e = ground arith
or_empty-injective (some s) none ho hp e = ground arith
or_empty-injective (some s) (some t) ho hp e = cc

-- Two echoes that have one text under the HMAC have the same fields, the id apart, if in both no field
-- under the HMAC has a bar, and none of the optional ones, the expiry, the digest and the opaque data,
-- is there and empty.
pub hmac_input-injective :
    (e f : ChallengeEcho)
    → IsPlain e
    → IsPlain f
    → input_of e ≡ input_of f
    → record e { id = f.id } ≡ f
unfolding hmac_input
hmac_input-injective e f he hf h =
    let (realm, h₁) = bar-injective e.realm f.realm _ _ he.0 hf.0 h in
    let (method, h₂) = bar-injective e.method f.method _ _ he.1 hf.1 h₁ in
    let (intent, h₃) = bar-injective e.intent f.intent _ _ he.2 hf.2 h₂ in
    let (request, h₄) = bar-injective e.request f.request _ _ he.3 hf.3 h₃ in
    let (expires, h₅) =
      bar-injective (or_empty e.expires) (or_empty f.expires) _ _ (or_empty-is_field e.expires he.4)
        (or_empty-is_field f.expires hf.4) h₄ in
    let (digest, opaque) =
      bar-injective (or_empty e.digest) (or_empty f.digest) _ _ (or_empty-is_field e.digest he.5)
        (or_empty-is_field f.digest hf.5) h₅ in
    let expires' = or_empty-injective e.expires f.expires he.4 hf.4 expires in
    let digest' = or_empty-injective e.digest f.digest he.5 hf.5 digest in
    let opaque' = or_empty-injective e.opaque f.opaque he.6 hf.6 opaque in cc
