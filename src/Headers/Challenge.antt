-- ===== src/Headers/Challenge.antt =====
-- `parse_www_authenticate` and `format_www_authenticate` of src/protocol/core/headers.rs. Whether the
-- request of a challenge decodes to JSON is a parameter.
use mpp_rs.Prelude.{
  ℕ, Text, codes, Bool, true, false, not, ◌&&◌, ◌||◌, Option, none, some, List, [], ◌∷◌, ◌++◌, leb,
  ◌==◌, if◌then◌else◌, is_empty, is_whitespace, all_chars, trim_start, strip_prefix,
}
use mpp_rs.Prelude.Results.{Result, ok, ◌>>=◌, ◌>>◌, ok_or, err_if}
use mpp_rs.Server.Challenge.{PaymentChallenge, lowercase}
use mpp_rs.Headers.Params.{
  HeaderError, invalid_challenge, missing_parameter, strip_payment_scheme, param, parse_auth_params,
}

-- `str::replace` of a character.
unfoldable pub replace : ℕ → Text → Text → Text
replace d by [] = []
replace d by (c ∷ cs) = if c == d then by ++ replace d by cs else c ∷ replace d by cs

abbrev pub has_line_break : Text → Bool
has_line_break [] = false
has_line_break (c ∷ cs) = (c == 13 || c == 10) || has_line_break cs

unfoldable pub escape_quoted_value : Text → Result HeaderError Text
unfolding replace
escape_quoted_value s =
    err_if (has_line_break s) invalid_challenge
    >> ok (replace b'"' (b'\\' ∷ b'"' ∷ []) (replace b'\\' (b'\\' ∷ b'\\' ∷ []) s))

abbrev pub optional_field : Text → Option Text → List (Text × Text) → List (Text × Text)
optional_field key none fields = fields
optional_field key (some value) fields = (key, value) ∷ fields

-- The parameters of a challenge, in the order of the header.
abbrev pub fields : PaymentChallenge → List (Text × Text)
fields c =
    (codes "id", c.id)
    ∷ (codes "realm", c.realm)
    ∷ (codes "method", c.method)
    ∷ (codes "intent", c.intent)
    ∷ (codes "request", c.request)
    ∷ optional_field (codes "expires") c.expires (
        optional_field (codes "description") c.description
          (optional_field (codes "digest") c.digest (optional_field (codes "opaque") c.opaque [])))

unfoldable pub format_part : Text × Text → Result HeaderError Text
unfolding escape_quoted_value
format_part (key, value) =
    escape_quoted_value value >>= λ escaped. ok (key ++ (b'=' ∷ b'"' ∷ (escaped ++ (b'"' ∷ []))))

-- The parts with `, ` between them.
unfoldable pub format_parts : List (Text × Text) → Result HeaderError Text
unfolding format_part
format_parts [] = ok []
format_parts (field ∷ []) = format_part field
format_parts (field ∷ next ∷ more) = format_part field >>= λ part.
    format_parts (next ∷ more) >>= λ rest. ok (part ++ (b',' ∷ b' ' ∷ rest))

unfoldable pub format_www_authenticate : PaymentChallenge → Result HeaderError Text
unfolding format_parts
format_www_authenticate c = format_parts (fields c) >>= λ parts. ok (codes "Payment " ++ parts)

unfoldable pub format_www_authenticate_many : List PaymentChallenge → Result HeaderError (List Text)
unfolding format_www_authenticate
format_www_authenticate_many [] = ok []
format_www_authenticate_many (c ∷ cs) = format_www_authenticate c >>= λ header.
    format_www_authenticate_many cs >>= λ headers. ok (header ∷ headers)

abbrev pub is_ascii_lowercase : ℕ → Bool
is_ascii_lowercase c = leb b'a' c && leb c b'z'

unfoldable pub is_valid_digest_format : Text → Bool
unfolding strip_prefix
is_valid_digest_format d = elim (strip_prefix (codes "sha-256=") d) [ none ↦ false | some _ ↦ true ]

abbrev pub digest_is_valid : Option Text → Bool
digest_is_valid none = true
digest_is_valid (some d) = is_valid_digest_format d

abbrev pub strip_blank : Text → Option Text
strip_blank [] = none
strip_blank (c ∷ cs) = if c == b' ' || c == 9 then some cs else none

abbrev pub require_param : Text → List (Text × Text) → Result HeaderError Text
require_param key params = ok_or (param key params) (missing_parameter key)

module _ (check_request : Text → Result HeaderError (Unit {0})) where
  unfoldable pub challenge_of : List (Text × Text) → Result HeaderError PaymentChallenge
  unfolding param is_valid_digest_format
  challenge_of params = do
    id ← require_param (codes "id") params
    err_if (is_empty id) invalid_challenge
    realm ← require_param (codes "realm") params
    method_raw ← require_param (codes "method") params
    err_if (is_empty method_raw || not (all_chars is_ascii_lowercase method_raw)) invalid_challenge
    intent ← require_param (codes "intent") params
    request ← require_param (codes "request") params
    check_request request
    err_if (not (digest_is_valid (param (codes "digest") params))) invalid_challenge
    ok (record {
      id = id;
      realm = realm;
      method = lowercase method_raw;
      intent = lowercase intent;
      request = request;
      expires = param (codes "expires") params;
      description = param (codes "description") params;
      digest = param (codes "digest") params;
      opaque = param (codes "opaque") params;
    })

  unfoldable pub parse_www_authenticate : Text → Result HeaderError PaymentChallenge
  unfolding challenge_of
  parse_www_authenticate header = do
    rest ← ok_or (strip_payment_scheme header) invalid_challenge
    params_str ← ok_or (strip_blank rest) invalid_challenge
    params ← parse_auth_params (trim_start is_whitespace params_str)
    challenge_of params
