-- ===== src/Headers/Split.antt =====
-- Several challenges in one header: `split_payment_challenges` of src/protocol/core/headers.rs. The
-- pattern `payment ` does not overlap itself, so its matches are the places where it stands.
use mpp_rs.Prelude.{
  ℕ, Text, codes, Bool, true, ◌&&◌, ◌||◌, List, [], ◌∷◌, ◌++◌, map, ◌==◌, if◌then◌else◌, trim_end,
}
use mpp_rs.Prelude.Results.{Result}
use mpp_rs.Server.Challenge.{PaymentChallenge}
use mpp_rs.Headers.Params.{HeaderError, strip_ascii_prefix}
use mpp_rs.Headers.Challenge.{parse_www_authenticate}
use mpp_rs.Headers.Tokens.{has_payment_scheme}

abbrev pub is_ascii_whitespace : ℕ → Bool
is_ascii_whitespace c = c == b' ' || c == 9 || c == 10 || c == 12 || c == 13

-- Whether a challenge may start behind `c`, if one may start at `c`.
abbrev pub valid_behind : Bool → ℕ → Bool
valid_behind valid c = if is_ascii_whitespace c then valid else c == b','

abbrev pub add_char : Bool → ℕ → Text × List Text → Text × List Text
add_char starts c (before, pieces) =
    if starts then ([], (c ∷ before) ∷ pieces) else (c ∷ before, pieces)

-- The text before the first start, and the text from each start to the next.
unfoldable pub pieces_from : Bool → Text → Text × List Text
unfolding strip_ascii_prefix
pieces_from valid [] = ([], [])
pieces_from valid (c ∷ cs) =
    add_char (valid && has_payment_scheme (strip_ascii_prefix (codes "payment ") (c ∷ cs))) c
      (pieces_from (valid_behind valid c) cs)

unfoldable pub split_payment_challenges : Text → List Text
unfolding pieces_from trim_end
split_payment_challenges header =
    map (trim_end (λ c. c == b',' || c == b' ')) ((pieces_from true header).1)

unfoldable pub parse_www_authenticate_all :
    (Text → Result HeaderError (Unit {0})) → List Text → List (Result HeaderError PaymentChallenge)
unfolding parse_www_authenticate split_payment_challenges
parse_www_authenticate_all check_request [] = []
parse_www_authenticate_all check_request (header ∷ headers) =
    map (parse_www_authenticate check_request) (split_payment_challenges header)
    ++ parse_www_authenticate_all check_request headers
