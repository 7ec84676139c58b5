-- ===== src/Headers/Params.antt =====
-- The scheme and the parameters of a header in src/protocol/core/headers.rs. The loop over an index is a
-- loop over the characters left; it has fuel for one round per character.
use mpp_rs.Prelude.{
  ℕ, zero, suc, Text, codes, Bool, true, false, ◌||◌, Option, none, some, List, [], ◌∷◌, ◌++◌, take,
  drop, length, ◌==◌, if◌then◌else◌, bytes_eq, is_whitespace, trim_start, eq_ignore_ascii_case,
}
use mpp_rs.Prelude.Results.{Result, err, ok}

-- `MppError::invalid_challenge_reason` and the error of base64url, without their texts.
pub data HeaderError : Type 0 where
  invalid_challenge : HeaderError
  duplicate_parameter : Text → HeaderError
  missing_parameter : Text → HeaderError
  invalid_base64_url : HeaderError

-- A prefix that is ASCII, in either case: what is left behind it.
unfoldable pub strip_ascii_prefix : Text → Text → Option Text
unfolding eq_ignore_ascii_case
strip_ascii_prefix prefix s =
    if eq_ignore_ascii_case (take (length prefix) s) prefix
    then some (drop (length prefix) s)
    else none

unfoldable pub strip_payment_scheme : Text → Option Text
unfolding strip_ascii_prefix trim_start
strip_payment_scheme header = strip_ascii_prefix (codes "Payment") (trim_start is_whitespace header)

-- The characters up to the first that `p` names, and the others.
abbrev pub on_first : ℕ → Text × Text → Text × Text
on_first c (before, after) = (c ∷ before, after)

unfoldable pub span_until : (ℕ → Bool) → Text → Text × Text
span_until p [] = ([], [])
span_until p (c ∷ cs) = if p c then ([], c ∷ cs) else on_first c (span_until p cs)

-- The value behind an opening quote, and what follows the closing one.
unfoldable pub read_quoted : Text → Text × Text
read_quoted [] = ([], [])
read_quoted (c ∷ []) = if c == b'"' then ([], []) else (c ∷ [], [])
read_quoted (c ∷ d ∷ cs) =
    if c == b'"'
    then ([], d ∷ cs)
    else if c == b'\\'
    then on_first d (read_quoted cs)
    else on_first c (read_quoted (d ∷ cs))

abbrev pub is_separator : ℕ → Bool
is_separator c = is_whitespace c || c == b','

-- One round of the loop: its end, a word that is no parameter, or a parameter; and what is left.
pub data Round : Type 0 where
  done : Round
  skipped : Text → Round
  parameter : Text → Text → Text → Round

unfoldable pub read_value : Text → Text → Round
unfolding read_quoted span_until
read_value key [] = done
read_value key (c ∷ cs) =
    if c == b'"'
    then (let (value, rest) = read_quoted cs in parameter key value rest)
    else (let (value, rest) = span_until is_separator (c ∷ cs) in parameter key value rest)

abbrev pub after_key : Text × Text → Round
after_key (key, []) = skipped []
after_key (key, c ∷ cs) =
    if c == b'=' then read_value key cs else skipped ((span_until is_separator (c ∷ cs)).1)

unfoldable pub read_round : Text → Round
unfolding read_value span_until trim_start
read_round s = elim (trim_start is_separator s) [
  | [] ↦ done
  | c ∷ cs ↦ after_key (span_until (λ d. d == b'=' || is_whitespace d) (c ∷ cs))
]

unfoldable pub param : Text → List (Text × Text) → Option Text
param key [] = none
param key ((k, v) ∷ params) = if bytes_eq key k then some v else param key params

abbrev pub is_set : Option Text → Bool
is_set none = false
is_set (some v) = true

unfoldable pub params_from : ℕ → List (Text × Text) → Text → Result HeaderError (List (Text × Text))
unfolding read_round param
params_from zero params s = ok params
params_from (suc fuel) params s = elim (read_round s) [
  | done ↦ ok params
  | skipped rest ↦ params_from fuel params rest
  | parameter key value rest ↦ elim (is_set (param key params)) [
    | true ↦ err (duplicate_parameter key)
    | false ↦ params_from fuel (params ++ ((key, value) ∷ [])) rest
  ]
]

unfoldable pub parse_auth_params : Text → Result HeaderError (List (Text × Text))
unfolding params_from
parse_auth_params s = params_from (suc (length s)) [] s
