-- ===== src/Headers/Tokens.antt =====
-- Credentials and receipts as headers in src/protocol/core/headers.rs, and `base64url_decode` of
-- src/protocol/core/types.rs. The base64 engine, `serde_json` and the parser of RFC 3339 are parameters.
use mpp_rs.Prelude.{
  ℕ, Text, codes, Bool, true, false, not, Option, none, some, List, [], ◌∷◌, ◌++◌, drop, ltb, ◌*◌,
  ◌==◌, byte_len, if◌then◌else◌, trim, split,
}
use mpp_rs.Prelude.Results.{Result, ok, ◌>>=◌, ◌>>◌, ok_or, err_if}
use mpp_rs.Server.Types.{PaymentCredential, Receipt}
use mpp_rs.Headers.Params.{HeaderError, invalid_challenge, invalid_base64_url, strip_ascii_prefix}
use mpp_rs.Headers.Challenge.{digest_is_valid}

pub record TokenCodec : Type 0 where
  pub encode : List ℕ → Text
  pub decode : Text → Option (List ℕ)
  pub credential_to_json : PaymentCredential → Option (List ℕ)
  pub credential_of_json : List ℕ → Option PaymentCredential
  pub receipt_to_json : Receipt → Option (List ℕ)
  pub receipt_of_json : List ℕ → Option Receipt
  pub is_iso8601_timestamp : Text → Bool

abbrev pub max_token_len : ℕ
max_token_len = 16 * 1024

-- The standard alphabet becomes the one of URLs, and padding goes.
unfoldable pub normalized : Text → Text
normalized [] = []
normalized (c ∷ cs) =
    if c == b'='
    then normalized cs
    else (if c == b'+' then b'-' else if c == b'/' then b'_' else c) ∷ normalized cs

abbrev pub has_payment_scheme : Option Text → Bool
has_payment_scheme none = false
has_payment_scheme (some rest) = true

unfoldable pub find_payment : List Text → Option Text
unfolding strip_ascii_prefix trim
find_payment [] = none
find_payment (piece ∷ pieces) =
    if has_payment_scheme (strip_ascii_prefix (codes "payment ") (trim piece))
    then some (trim piece)
    else find_payment pieces

unfoldable pub extract_payment_scheme : Text → Option Text
unfolding find_payment split
extract_payment_scheme header = find_payment (split b',' header)

module _ (x : TokenCodec) where
  unfoldable pub base64url_decode : Text → Result HeaderError (List ℕ)
  unfolding normalized
  base64url_decode input = ok_or (x.decode (normalized input)) invalid_base64_url

  unfoldable pub parse_authorization : Text → Result HeaderError PaymentCredential
  parse_authorization header = do
    payment_part ← ok_or (extract_payment_scheme header) invalid_challenge
    err_if (ltb max_token_len (byte_len (trim (drop 8 payment_part)))) invalid_challenge
    decoded ← base64url_decode (trim (drop 8 payment_part))
    credential ← ok_or (x.credential_of_json decoded) invalid_challenge
    err_if (not (digest_is_valid credential.challenge.digest)) invalid_challenge
    ok credential

  unfoldable pub format_authorization : PaymentCredential → Result HeaderError Text
  format_authorization credential =
      ok_or (x.credential_to_json credential) invalid_challenge >>= λ json.
      ok (codes "Payment " ++ x.encode json)

  unfoldable pub parse_receipt : Text → Result HeaderError Receipt
  parse_receipt header = do
    err_if (ltb max_token_len (byte_len (trim header))) invalid_challenge
    decoded ← base64url_decode (trim header)
    receipt ← ok_or (x.receipt_of_json decoded) invalid_challenge
    err_if (not (x.is_iso8601_timestamp receipt.timestamp)) invalid_challenge
    ok receipt

  unfoldable pub format_receipt : Receipt → Result HeaderError Text
  format_receipt receipt =
      ok_or (x.receipt_to_json receipt) invalid_challenge >>= λ json. ok (x.encode json)
