-- ===== src/Headers/Reads.antt =====
-- What the parser of src/protocol/core/headers.rs reads of a part that the formatter has written.
use mpp_rs.Prelude.{
  ℕ, Text, Bool, true, false, not, ◌&&◌, ◌||◌, [], ◌∷◌, ◌++◌, ◌==◌, ◌≡◌, refl, ap, ◌∙◌, is_empty,
  is_whitespace, all_chars, arith, Bool-cases, inl, inr,
}
use mpp_rs.Headers.Params.{is_separator, span_until, read_quoted, on_first}
use mpp_rs.Headers.Challenge.{replace}

-- The two replacements.
abbrev pub escaped : Text → Text
escaped s = replace b'"' (b'\\' ∷ b'"' ∷ []) (replace b'\\' (b'\\' ∷ b'\\' ∷ []) s)

-- A name without a separator, an equals sign or a quote.
abbrev pub is_name_char : ℕ → Bool
is_name_char c = not (is_separator c) && not (c == b'=')

unfoldable pub is_name : Text → Bool
unfolding all_chars
is_name s = not (is_empty s) && all_chars is_name_char s

read_quoted-plain :
    (c : ℕ) (s : Text)
    → (c == b'"') ≡ false
    → (c == b'\\') ≡ false
    → read_quoted (c ∷ s) ≡ on_first c (read_quoted s)
unfolding read_quoted
read_quoted-plain c [] hq hb = rw hq
read_quoted-plain c (d ∷ s) hq hb = rw (hq, hb)

pub read_quoted-escaped : (s rest : Text) → read_quoted (escaped s ++ (b'"' ∷ rest)) ≡ (s, rest)
unfolding read_quoted replace
read_quoted-escaped [] [] = refl
read_quoted-escaped [] (d ∷ rest) = refl
read_quoted-escaped (c ∷ s) rest = elim (Bool-cases (c == b'\\')) [
  | inl is_backslash ↦
      let same : b'\\' ≡ c = ground arith in
      rw is_backslash
        (ap (λ r. on_first b'\\' r) (read_quoted-escaped s rest) ∙ ap (λ d. (d ∷ s, rest)) same)
  | inr no_backslash ↦ elim (Bool-cases (c == b'"')) [
    | inl is_quote ↦
        let same : b'"' ≡ c = ground arith in
        rw (no_backslash, is_quote)
          (ap (λ r. on_first b'"' r) (read_quoted-escaped s rest) ∙ ap (λ d. (d ∷ s, rest)) same)
    | inr no_quote ↦
        rw (no_backslash, no_quote)
          (read_quoted-plain c (escaped s ++ (b'"' ∷ rest)) no_quote no_backslash
            ∙ ap (λ r. on_first c r) (read_quoted-escaped s rest))
  ]
]

pub span_until-name :
    (key rest : Text)
    → all_chars is_name_char key ≡ true
    → span_until (λ d. d == b'=' || is_whitespace d) (key ++ (b'=' ∷ rest)) ≡ (key, b'=' ∷ rest)
unfolding span_until all_chars
span_until-name [] rest h = refl
span_until-name (c ∷ key) rest h =
    let plain : (c == b'=' || is_whitespace c) ≡ false = ground arith in
    rw plain (ap (λ r. on_first c r) (span_until-name key rest (ground arith)))
