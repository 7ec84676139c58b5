-- ===== src/Headers/TokenRoundTrip.antt =====
-- Credentials and receipts of src/protocol/core/headers.rs are read back.
use mpp_rs.Prelude.{
  ℕ, ◌≤◌, Text, codes, Bool, true, false, not, ◌&&◌, ◌||◌, some, List, [], ◌∷◌, ◌++◌, ◌==◌, ◌≡◌,
  refl, ap, ◌∙◌, ltb, leb, byte_len, trim, trim_start, trim_end, keep_end, split, is_whitespace,
  all_chars, is_empty, is_ascii_digit, eq_ignore_ascii_case, bytes_eq, arith,
}
use mpp_rs.Prelude.Results.{ok, ok-injective}
use mpp_rs.Server.Types.{PaymentCredential, Receipt}
use mpp_rs.Headers.Params.{strip_ascii_prefix}
use mpp_rs.Headers.Challenge.{digest_is_valid}
use mpp_rs.Headers.Tokens.{
  TokenCodec, max_token_len, normalized, find_payment, extract_payment_scheme, base64url_decode,
  parse_authorization, format_authorization, parse_receipt, format_receipt,
}

-- The alphabet of base64url without padding.
abbrev pub is_url_safe : ℕ → Bool
is_url_safe c =
    (leb b'a' c && leb c b'z')
    || (leb b'A' c && leb c b'Z')
    || is_ascii_digit c
    || c == b'-'
    || c == b'_'

-- A token: not empty, of that alphabet, and not over the limit.
abbrev pub IsToken : Text → Type 0
IsToken t = (is_empty t ≡ false) × (all_chars is_url_safe t ≡ true) × (byte_len t ≤ max_token_len)

normalized-token : (t : Text) → all_chars is_url_safe t ≡ true → normalized t ≡ t
unfolding normalized all_chars
normalized-token [] h = refl
normalized-token (c ∷ t) h =
    let no_padding : (c == b'=') ≡ false = ground arith in
    let no_plus : (c == b'+') ≡ false = ground arith in
    let no_slash : (c == b'/') ≡ false = ground arith in
    rw (no_padding, no_plus, no_slash, normalized-token t (ground arith))

keep_end-more : (b : Bool) (c : ℕ) (s : Text) → is_empty s ≡ false → keep_end b c s ≡ c ∷ s
keep_end-more b c [] h = cc
keep_end-more b c (d ∷ s) h = refl

nonempty-append : (s t : Text) → is_empty t ≡ false → is_empty (s ++ t) ≡ false
nonempty-append [] t h = h
nonempty-append (c ∷ s) t h = refl

trim_end-token :
    (s t : Text)
    → is_empty t ≡ false
    → all_chars is_url_safe t ≡ true
    → trim_end is_whitespace (s ++ t) ≡ s ++ t
unfolding trim_end all_chars
trim_end-token [] [] h safe = cc
trim_end-token [] (d ∷ []) h safe = ground arith
trim_end-token [] (d ∷ e ∷ t) h safe =
    ap (λ u. keep_end (is_whitespace d) d u) (trim_end-token [] (e ∷ t) refl (ground arith))
trim_end-token (c ∷ s) t h safe =
    ap (λ u. keep_end (is_whitespace c) c u) (trim_end-token s t h safe)
    ∙ keep_end-more (is_whitespace c) c (s ++ t) (nonempty-append s t h)

trim_start-token : (t : Text) → all_chars is_url_safe t ≡ true → trim_start is_whitespace t ≡ t
unfolding trim_start all_chars
trim_start-token [] safe = refl
trim_start-token (c ∷ t) safe = ground arith

trim-token : (t : Text) → is_empty t ≡ false → all_chars is_url_safe t ≡ true → trim t ≡ t
unfolding trim
trim-token t h safe = rw (trim_start-token t safe, trim) (trim_end-token [] t h safe)

split-token : (s : Text) → all_chars (λ c. not (c == b',')) s ≡ true → split b',' s ≡ s ∷ []
unfolding split all_chars
split-token [] h = refl
split-token (c ∷ s) h =
    let no_comma : (c == b',') ≡ false = ground arith in rw (no_comma, split-token s (ground arith))

commas : (t : Text) → all_chars is_url_safe t ≡ true → all_chars (λ c. not (c == b',')) t ≡ true
unfolding all_chars
commas [] h = refl
commas (c ∷ t) h = ground (arith, commas t)

trim-payment : (t : Text) → IsToken t → trim (codes "Payment " ++ t) ≡ codes "Payment " ++ t
unfolding trim trim_start
trim-payment t h = trim_end-token (codes "Payment ") t h.0 h.1

scheme-payment : (t : Text) → strip_ascii_prefix (codes "payment ") (codes "Payment " ++ t) ≡ some t
unfolding strip_ascii_prefix eq_ignore_ascii_case bytes_eq
scheme-payment t = refl

find_payment-one :
    (piece trimmed rest : Text)
    → trim piece ≡ trimmed
    → strip_ascii_prefix (codes "payment ") trimmed ≡ some rest
    → find_payment (piece ∷ []) ≡ some trimmed
unfolding find_payment
find_payment-one piece trimmed rest same found = rw (same, found)

-- A token behind the scheme is found, with its scheme.
extract_payment_scheme-token :
    (t : Text)
    → IsToken t
    → extract_payment_scheme (codes "Payment " ++ t) ≡ some (codes "Payment " ++ t)
unfolding extract_payment_scheme all_chars
extract_payment_scheme-token t h =
    ap find_payment (split-token (codes "Payment " ++ t) (commas t h.1))
    ∙ find_payment-one (codes "Payment " ++ t) (codes "Payment " ++ t) t (trim-payment t h)
        (scheme-payment t)

base64url_decode-token :
    (x : TokenCodec) (t : Text) (bytes : List ℕ)
    → IsToken t
    → x.decode t ≡ some bytes
    → base64url_decode x t ≡ ok bytes
unfolding base64url_decode
base64url_decode-token x t bytes h e = rw (normalized-token t h.1, base64url_decode) (rw e)

module _ (x : TokenCodec) where
  -- A credential is read back from its header: where `serde_json` and the base64 engine read back what
  -- they have written for it, the token is in the engine's alphabet and within the size limit, and the
  -- digest that it echoes has the prefix that the parser asks for.
  pub parse_authorization-format :
      (credential : PaymentCredential) (json : List ℕ) (header : Text)
      → x.credential_to_json credential ≡ some json
      → x.credential_of_json json ≡ some credential
      → x.decode (x.encode json) ≡ some json
      → IsToken (x.encode json)
      → digest_is_valid credential.challenge.digest ≡ true
      → format_authorization x credential ≡ ok header
      → parse_authorization x header ≡ ok credential
  unfolding format_authorization parse_authorization
  parse_authorization-format credential json header to of decode token digest e =
      let t = x.encode json in
      let is_header : codes "Payment " ++ t ≡ header = ok-injective _ header (rw to at e) in
      let small : ltb max_token_len (byte_len t) ≡ false = ground (arith, token.2) in
      rw (← is_header) (
        rw (
          extract_payment_scheme-token t token,
          trim-token t token.0 token.1,
          small,
          base64url_decode-token x t json token decode,
          of,
          digest,
        ))

  -- A receipt is read back from its header under the same conditions, if its time is one of ISO 8601.
  pub parse_receipt-format :
      (receipt : Receipt) (json : List ℕ) (header : Text)
      → x.receipt_to_json receipt ≡ some json
      → x.receipt_of_json json ≡ some receipt
      → x.decode (x.encode json) ≡ some json
      → IsToken (x.encode json)
      → x.is_iso8601_timestamp receipt.timestamp ≡ true
      → format_receipt x receipt ≡ ok header
      → parse_receipt x header ≡ ok receipt
  unfolding format_receipt parse_receipt
  parse_receipt-format receipt json header to of decode token timely e =
      let t = x.encode json in
      let is_header : t ≡ header = ok-injective t header (rw to at e) in
      let small : ltb max_token_len (byte_len t) ≡ false = ground (arith, token.2) in
      rw (← is_header) (
        rw (
          trim-token t token.0 token.1,
          small,
          base64url_decode-token x t json token decode,
          of,
          timely,
        ))
