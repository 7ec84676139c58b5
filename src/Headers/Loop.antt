-- ===== src/Headers/Loop.antt =====
-- The loop of the parser in src/protocol/core/headers.rs on a header that the formatter has written.
use mpp_rs.Prelude.{
  ℕ, zero, suc, ◌≤◌, ◌<◌, Text, Bool, true, false, not, ◌&&◌, ◌||◌, List, [], ◌∷◌, ◌++◌, ◌==◌, ◌≡◌,
  refl, sym, ap, ◌∙◌, is_whitespace, all_chars, trim_start, length, arith, length-append,
}
use mpp_rs.Prelude.Results.{ok, bind-ok, ok-injective}
use mpp_rs.Headers.Params.{
  is_separator, span_until, parameter, read_value, read_round, after_key, param, params_from,
  is_set, parse_auth_params,
}
use mpp_rs.Headers.Challenge.{escape_quoted_value, format_part, format_parts}
use mpp_rs.Headers.Reads.{escaped, is_name, read_quoted-escaped, span_until-name}
use mathlib.Core.List.{append-nil, append_assoc}

-- A part with what follows it, and all the parts.
abbrev pub part_text : Text × Text → Text → Text
part_text (key, value) rest = key ++ (b'=' ∷ b'"' ∷ (escaped value ++ (b'"' ∷ rest)))

abbrev pub text_of : List (Text × Text) → Text
text_of [] = []
text_of (field ∷ []) = part_text field []
text_of (field ∷ next ∷ more) = part_text field (b',' ∷ b' ' ∷ text_of (next ∷ more))

abbrev tail_text : List (Text × Text) → Text
tail_text [] = []
tail_text (next ∷ more) = b',' ∷ b' ' ∷ text_of (next ∷ more)

text_of-cons :
    (field : Text × Text) (more : List (Text × Text))
    → text_of (field ∷ more) ≡ part_text field (tail_text more)
text_of-cons field [] = refl
text_of-cons field (next ∷ more) = refl

trim_start-name :
    (key rest : Text) → is_name key ≡ true → trim_start is_separator (key ++ rest) ≡ key ++ rest
unfolding trim_start is_name all_chars
trim_start-name [] rest h = ground arith
trim_start-name (c ∷ key) rest h = ground arith

pub read_round-cons :
    (c : ℕ) (cs s : Text)
    → trim_start is_separator s ≡ c ∷ cs
    → read_round s ≡ after_key (span_until (λ d. d == b'=' || is_whitespace d) (c ∷ cs))
unfolding read_round span_until
read_round-cons c cs s h = rw (h, read_round)

read_round-part :
    (key value rest : Text)
    → is_name key ≡ true
    → read_round (part_text (key, value) rest) ≡ parameter key value rest
unfolding read_value is_name
read_round-part [] value rest h = ground arith
read_round-part (c ∷ key) value rest h =
    let behind = b'"' ∷ (escaped value ++ (b'"' ∷ rest)) in
    read_round-cons c (key ++ (b'=' ∷ behind)) (part_text (c ∷ key, value) rest)
      (trim_start-name (c ∷ key) (b'=' ∷ behind) h)
    ∙ ap after_key (span_until-name (c ∷ key) behind (ground arith))
    ∙ ap (λ r. parameter (c ∷ key) r.0 r.1) (read_quoted-escaped value rest)

read_round-tail :
    (more : List (Text × Text)) → read_round (tail_text more) ≡ read_round (text_of more)
unfolding read_round trim_start
read_round-tail [] = refl
read_round-tail (next ∷ more) = refl

-- Keys that are names, each of them new.
unfoldable pub are_fresh : List (Text × Text) → List (Text × Text) → Bool
unfolding param is_name
are_fresh params [] = true
are_fresh params ((key, value) ∷ fields) =
    is_name key
    && (not (is_set (param key params)) && are_fresh (params ++ ((key, value) ∷ [])) fields)

params_from-text :
    (fields : List (Text × Text)) (fuel : ℕ) (params : List (Text × Text)) (s : Text)
    → read_round s ≡ read_round (text_of fields)
    → are_fresh params fields ≡ true
    → length fields < fuel
    → params_from fuel params s ≡ ok (params ++ fields)
unfolding params_from are_fresh read_round trim_start
params_from-text fields zero params s same fresh enough = absurd (omega arith)
params_from-text [] (suc fuel) params s same fresh enough =
    rw (same, params_from) (ap ok (sym (append-nil params)))
params_from-text ((key, value) ∷ fields) (suc fuel) params s same fresh enough =
    let name : is_name key ≡ true = ground arith in
    let new : is_set (param key params) ≡ false = ground arith in
    let read =
      same
      ∙ ap read_round (text_of-cons (key, value) fields)
      ∙ read_round-part key value (tail_text fields) name in
    rw (read, params_from)
      (rw new (
        params_from-text fields fuel (params ++ ((key, value) ∷ [])) (tail_text fields)
          (read_round-tail fields) (ground arith) (omega arith)
        ∙ ap ok (append_assoc params ((key, value) ∷ []) fields)))

-- The parser has fuel for every part.
length-text_of : (fields : List (Text × Text)) → length fields ≤ length (text_of fields)
length-text_of [] = omega arith
length-text_of ((key, value) ∷ []) =
    omega (arith, length-append key (b'=' ∷ b'"' ∷ (escaped value ++ (b'"' ∷ []))))
length-text_of ((key, value) ∷ next ∷ more) =
    let behind = b',' ∷ b' ' ∷ text_of (next ∷ more) in
    omega (
      arith,
      length-text_of (next ∷ more),
      length-append key (b'=' ∷ b'"' ∷ (escaped value ++ (b'"' ∷ behind))),
      length-append (escaped value) (b'"' ∷ behind),
    )

pub parse_auth_params-text_of :
    (fields : List (Text × Text))
    → are_fresh [] fields ≡ true
    → parse_auth_params (text_of fields) ≡ ok fields
unfolding parse_auth_params
parse_auth_params-text_of fields fresh =
    params_from-text fields (suc (length (text_of fields))) [] (text_of fields) refl fresh
      (omega (arith, length-text_of fields))

format_part-ok :
    (key value part : Text) → format_part (key, value) ≡ ok part → part ≡ part_text (key, value) []
unfolding format_part escape_quoted_value
format_part-ok key value part e = ground arith

pub format_parts-text_of :
    (fields : List (Text × Text)) (text : Text)
    → format_parts fields ≡ ok text
    → text ≡ text_of fields
unfolding format_parts format_part escape_quoted_value
format_parts-text_of [] text e = sym (ok-injective [] text e)
format_parts-text_of ((key, value) ∷ []) text e = ground arith
format_parts-text_of ((key, value) ∷ next ∷ more) text e =
    let (part, is_part, e₁) = bind-ok (format_part (key, value)) _ text e in
    let (rest, is_rest, e₂) = bind-ok (format_parts (next ∷ more)) _ text e₁ in
    let behind = b',' ∷ b' ' ∷ rest in
    sym (ok-injective _ text e₂)
    ∙ ap (λ p. p ++ behind) (format_part-ok key value part is_part)
    ∙ append_assoc key (b'=' ∷ b'"' ∷ (escaped value ++ (b'"' ∷ []))) behind
    ∙ ap (λ t. key ++ (b'=' ∷ b'"' ∷ t)) (append_assoc (escaped value) (b'"' ∷ []) behind)
    ∙ ap (λ t. part_text (key, value) (b',' ∷ b' ' ∷ t))
        (format_parts-text_of (next ∷ more) rest is_rest)
