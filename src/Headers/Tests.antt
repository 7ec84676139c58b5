-- ===== src/Headers/Tests.antt =====
-- A challenge with quotes in its description, a credential and a receipt, through their headers.
use mpp_rs.Prelude.{
  ◌≡◌, refl, Text, codes, true, none, some, [], ◌∷◌, arith, all_chars, trim_end, bytes_eq,
  eq_ignore_ascii_case, trim_start, List,
}
use mpp_rs.Prelude.Results.{Result, ok}
use mpp_rs.Charge.Json.{null}
use mpp_rs.Server.Challenge.{PaymentChallenge, to_echo}
use mpp_rs.Server.Types.{PaymentCredential, Receipt}
use mpp_rs.Headers.Params.{
  HeaderError, strip_ascii_prefix, span_until, read_quoted, read_value, read_round, param,
  params_from, parse_auth_params,
}
use mpp_rs.Headers.Ends.{Parses, parse_auth_params-Parses}
use mpp_rs.Headers.Challenge.{
  replace, escape_quoted_value, format_part, format_parts, format_www_authenticate,
  parse_www_authenticate,
}
use mpp_rs.Headers.RoundTrip.{IsWellFormed, parse_www_authenticate-format}
use mpp_rs.Headers.Tokens.{
  TokenCodec, format_authorization, parse_authorization, format_receipt, parse_receipt,
}
use mpp_rs.Headers.TokenRoundTrip.{IsToken, parse_authorization-format, parse_receipt-format}
use mpp_rs.Headers.Split.{pieces_from, split_payment_challenges}

abbrev challenge : PaymentChallenge
challenge = record {
  id = codes "abc";
  realm = codes "api";
  method = codes "tempo";
  intent = codes "charge";
  request = codes "e30";
  expires = none;
  description = some (codes "a \"b\", c=\\");
  digest = none;
  opaque = none;
}

abbrev check_request : Text → Result HeaderError (Unit {0})
check_request s = ok tt

abbrev header : Text
header =
    codes
      "Payment id=\"abc\", realm=\"api\", method=\"tempo\", intent=\"charge\", request=\"e30\", description=\"a \\\"b\\\", c=\\\\\""

challenge-IsWellFormed : IsWellFormed check_request challenge
unfolding all_chars
challenge-IsWellFormed = record {
  id = refl;
  method = refl;
  lowercase_method = refl;
  lowercase_intent = refl;
  request = refl;
  digest = refl;
}

header-run : format_www_authenticate challenge ≡ ok header
unfolding format_www_authenticate format_parts format_part escape_quoted_value replace
header-run = refl

parse_www_authenticate-format_example : parse_www_authenticate check_request header ≡ ok challenge
parse_www_authenticate-format_example =
    parse_www_authenticate-format check_request challenge header challenge-IsWellFormed header-run

abbrev credential : PaymentCredential
credential = record { challenge = to_echo challenge; source = none; payload = null }

abbrev receipt : Receipt
receipt = record {
  method = codes "tempo";
  timestamp = codes "now";
  reference = codes "0x1";
  external_id = none;
}

-- A codec for these two alone, whose token is the JSON itself.
abbrev codec : TokenCodec
codec = record {
  encode = λ bytes. bytes;
  decode = λ t. some t;
  credential_to_json = λ c. some (codes "cred");
  credential_of_json = λ bytes. some credential;
  receipt_to_json = λ r. some (codes "receipt");
  receipt_of_json = λ bytes. some receipt;
  is_iso8601_timestamp = λ s. true;
}

cred-IsToken : IsToken (codes "cred")
unfolding all_chars
cred-IsToken = (refl, refl, omega arith)

receipt-IsToken : IsToken (codes "receipt")
unfolding all_chars
receipt-IsToken = (refl, refl, omega arith)

authorization-run : format_authorization codec credential ≡ ok (codes "Payment cred")
unfolding format_authorization
authorization-run = refl

parse_authorization-format_example :
    parse_authorization codec (codes "Payment cred") ≡ ok credential
parse_authorization-format_example =
    parse_authorization-format codec credential (codes "cred") (codes "Payment cred") refl refl refl
      cred-IsToken refl authorization-run

receipt-run : format_receipt codec receipt ≡ ok (codes "receipt")
unfolding format_receipt
receipt-run = refl

parse_receipt-format_example : parse_receipt codec (codes "receipt") ≡ ok receipt
parse_receipt-format_example =
    parse_receipt-format codec receipt (codes "receipt") (codes "receipt") refl refl refl
      receipt-IsToken refl receipt-run

-- The scheme's name inside a quoted value ends the challenge there.
split_inside_quotes :
    split_payment_challenges (codes "Payment id=\"a\", description=\"x, Payment y\"")
    ≡ codes "Payment id=\"a\", description=\"x" ∷ codes "Payment y\"" ∷ []
unfolding split_payment_challenges pieces_from strip_ascii_prefix eq_ignore_ascii_case bytes_eq
    trim_end
split_inside_quotes = refl

-- A word that is no parameter is skipped.
skipped_word :
    parse_auth_params (codes "x, a=\"b\" c=d")
    ≡ ok ((codes "a", codes "b") ∷ (codes "c", codes "d") ∷ [])
unfolding parse_auth_params params_from read_round read_value span_until read_quoted param
    trim_start bytes_eq
skipped_word = refl

parse_auth_params-Parses_example :
    Parses [] (codes "x, a=\"b\" c=d") (parse_auth_params (codes "x, a=\"b\" c=d"))
    × ((result : Result HeaderError (List (Text × Text)))
        → Parses [] (codes "x, a=\"b\" c=d") result
        → parse_auth_params (codes "x, a=\"b\" c=d") ≡ result)
parse_auth_params-Parses_example = parse_auth_params-Parses (codes "x, a=\"b\" c=d")
