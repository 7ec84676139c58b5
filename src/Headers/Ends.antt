-- ===== src/Headers/Ends.antt =====
-- The loop of `parse_auth_params` in src/protocol/core/headers.rs ends: each of its rounds takes a
-- character at least.
use mpp_rs.Prelude.{
  ℕ, zero, suc, ◌≤◌, ◌<◌, Text, Bool, true, false, ◌||◌, List, [], ◌∷◌, ◌++◌, ◌==◌, ◌≡◌, ◌⊎◌, refl,
  sym, is_whitespace, trim_start, length, arith, Bool-cases, inl, inr,
}
use mpp_rs.Prelude.Results.{Result, err, ok}
use mathlib.Core.Path.{subst}
use mpp_rs.Headers.Loop.{read_round-cons}
use mpp_rs.Headers.Params.{
  HeaderError, duplicate_parameter, Round, done, skipped, parameter, is_separator, span_until,
  read_quoted, read_value, read_round, after_key, param, params_from, is_set, parse_auth_params,
}

-- What a round leaves is shorter than `n`.
abbrev Shortens : ℕ → Round → Type 0
Shortens n done = Unit {0}
Shortens n (skipped rest) = length rest < n
Shortens n (parameter key value rest) = length rest < n

trim_start-length : (p : ℕ → Bool) (s : Text) → length (trim_start p s) ≤ length s
unfolding trim_start
trim_start-length p [] = omega arith
trim_start-length p (c ∷ cs) = elim (Bool-cases (p c)) [
  | inl trims ↦ rw trims (omega (arith, trim_start-length p cs))
  | inr keeps ↦ rw keeps (omega arith)
]

-- What is left begins with a character that is not trimmed.
trim_start-head :
    (p : ℕ → Bool) (s : Text) (c : ℕ) (cs : Text) → trim_start p s ≡ c ∷ cs → p c ≡ false
unfolding trim_start
trim_start-head p [] c cs e = cc
trim_start-head p (d ∷ ds) c cs e = elim (Bool-cases (p d)) [
  | inl trims ↦ trim_start-head p ds c cs (rw trims at e)
  | inr keeps ↦ (let same : d ∷ ds ≡ c ∷ cs = rw keeps at e in cc)
]

span_until-length : (p : ℕ → Bool) (s : Text) → length ((span_until p s).1) ≤ length s
unfolding span_until
span_until-length p [] = omega arith
span_until-length p (c ∷ cs) = elim (Bool-cases (p c)) [
  | inl trims ↦ rw trims (omega arith)
  | inr keeps ↦ rw keeps (omega (arith, span_until-length p cs))
]

read_quoted-length : (s : Text) → length ((read_quoted s).1) ≤ length s
unfolding read_quoted
read_quoted-length [] = omega arith
read_quoted-length (c ∷ []) = ground arith
read_quoted-length (c ∷ d ∷ cs) = elim (Bool-cases (c == b'"')) [
  | inl is_quote ↦ rw is_quote (omega arith)
  | inr no_quote ↦ elim (Bool-cases (c == b'\\')) [
    | inl is_backslash ↦ rw (no_quote, is_backslash) (omega (arith, read_quoted-length cs))
    | inr no_backslash ↦ rw (no_quote, no_backslash) (omega (arith, read_quoted-length (d ∷ cs)))
  ]
]

read_value-Shortens : (n : ℕ) (key s : Text) → length s < n → Shortens n (read_value key s)
unfolding read_value
read_value-Shortens n key [] h = tt
read_value-Shortens n key (c ∷ cs) h = elim (Bool-cases (c == b'"')) [
  | inl is_quote ↦ rw (is_quote, read_value) (omega (arith, read_quoted-length cs))
  | inr no_quote ↦
      rw (no_quote, read_value) (omega (arith, span_until-length is_separator (c ∷ cs)))
]

after_key-Shortens :
    (n : ℕ) (key rest : Text) → length rest < n → Shortens n (after_key (key, rest))
unfolding read_value
after_key-Shortens n key [] h = omega arith
after_key-Shortens n key (c ∷ cs) h = elim (Bool-cases (c == b'=')) [
  | inl is_equals ↦ rw is_equals (read_value-Shortens n key cs (omega arith))
  | inr other ↦ rw other (omega (arith, span_until-length is_separator (c ∷ cs)))
]

first_of : (s : Text) → (s ≡ []) ⊎ ((c : ℕ) × (cs : Text) × (s ≡ c ∷ cs))
first_of [] = inl refl
first_of (c ∷ cs) = inr (c, cs, refl)

-- A round that begins with a character of no separator.
named-Shortens :
    (n c : ℕ) (cs : Text)
    → length cs < n
    → is_separator c ≡ false
    → Shortens n (after_key (span_until (λ d. d == b'=' || is_whitespace d) (c ∷ cs)))
unfolding span_until
named-Shortens n c cs h plain = elim (Bool-cases (c == b'=' || is_whitespace c)) [
  | inl stops ↦
      let is_equals : (c == b'=') ≡ true = ground arith in
      rw (stops, is_equals) (read_value-Shortens n [] cs h)
  | inr goes ↦ rw goes (
      let span = span_until (λ d. d == b'=' || is_whitespace d) cs in
      after_key-Shortens n (c ∷ span.0) span.1
        (omega (arith, span_until-length (λ d. d == b'=' || is_whitespace d) cs)))
]

read_round-Shortens : (s : Text) → Shortens (length s) (read_round s)
unfolding read_round
read_round-Shortens s = elim (first_of (trim_start is_separator s)) [
  | inl nothing ↦ rw (nothing, read_round) tt
  | inr (c, cs, begins) ↦
      let least : length (c ∷ cs) ≤ length s =
        subst (λ (t : Text). length t ≤ length s) begins (trim_start-length is_separator s) in
      subst (Shortens (length s)) (sym (read_round-cons c cs s begins))
        (named-Shortens (length s) c cs (omega arith) (trim_start-head is_separator s c cs begins))
]

-- The loop, which has no bound: it ends when nothing is left, refuses a key that it has read before,
-- and otherwise goes on with what the round has left.
pub data Parses : List (Text × Text) → Text → Result HeaderError (List (Text × Text)) → Type 0 where
  ends :
      (params : List (Text × Text)) (s : Text) → read_round s ≡ done → Parses params s (ok params)
  skips :
      (params : List (Text × Text)) (s rest : Text)
      (result : Result HeaderError (List (Text × Text)))
      → read_round s ≡ skipped rest
      → Parses params rest result
      → Parses params s result
  repeats :
      (params : List (Text × Text)) (s key value rest : Text)
      → read_round s ≡ parameter key value rest
      → is_set (param key params) ≡ true
      → Parses params s (err (duplicate_parameter key))
  adds :
      (params : List (Text × Text)) (s key value rest : Text)
      (result : Result HeaderError (List (Text × Text)))
      → read_round s ≡ parameter key value rest
      → is_set (param key params) ≡ false
      → Parses (params ++ ((key, value) ∷ [])) rest result
      → Parses params s result

-- A round, with what it is of.
round_cases :
    (s : Text)
    → (read_round s ≡ done)
      ⊎ (((rest : Text) × (read_round s ≡ skipped rest))
          ⊎ ((key value rest : Text) × (read_round s ≡ parameter key value rest)))
round_cases s = go (read_round s) refl
  where
    go :
        (r : Round)
        → read_round s ≡ r
        → (read_round s ≡ done)
          ⊎ (((rest : Text) × (read_round s ≡ skipped rest))
              ⊎ ((key value rest : Text) × (read_round s ≡ parameter key value rest)))
    go done e = inl e
    go (skipped rest) e = inr (inl (rest, e))
    go (parameter key value rest) e = inr (inr (key, value, rest, e))

params_from-Parses :
    (fuel : ℕ) (params : List (Text × Text)) (s : Text)
    → length s < fuel
    → Parses params s (params_from fuel params s)
unfolding params_from
params_from-Parses zero params s enough = absurd (omega arith)
params_from-Parses (suc fuel) params s enough = elim (round_cases s) [
  | inl is_done ↦ rw (is_done, params_from) (ends params s is_done)
  | inr (inl (rest, is_skipped)) ↦
      let less : length rest < length s =
        subst (Shortens (length s)) is_skipped (read_round-Shortens s) in
      rw (is_skipped, params_from)
        (skips params s rest (params_from fuel params rest) is_skipped
          (params_from-Parses fuel params rest (omega arith)))
  | inr (inr (key, value, rest, is_parameter)) ↦
      let less : length rest < length s =
        subst (Shortens (length s)) is_parameter (read_round-Shortens s) in
      elim (Bool-cases (is_set (param key params))) [
        | inl old ↦
            rw (is_parameter, params_from)
              (rw old (repeats params s key value rest is_parameter old))
        | inr new ↦
            let longer = params ++ ((key, value) ∷ []) in
            rw (is_parameter, params_from)
              (rw new (
                adds params s key value rest (params_from fuel longer rest) is_parameter new
                  (params_from-Parses fuel longer rest (omega arith))))
      ]
]

Parses-params_from :
    (fuel : ℕ) (params : List (Text × Text)) (s : Text)
    (result : Result HeaderError (List (Text × Text)))
    → Parses params s result
    → length s < fuel
    → params_from fuel params s ≡ result
unfolding params_from
Parses-params_from zero params s result run enough = absurd (omega arith)
Parses-params_from (suc fuel) _ _ _ (ends params s is_done) enough = rw (is_done, params_from)
Parses-params_from (suc fuel) _ _ _ (skips params s rest result is_skipped run) enough =
    let less : length rest < length s =
      subst (Shortens (length s)) is_skipped (read_round-Shortens s) in
    rw (is_skipped, params_from) (Parses-params_from fuel params rest result run (omega arith))
Parses-params_from (suc fuel) _ _ _ (repeats params s key value rest is_parameter old) enough =
    rw (is_parameter, params_from) (rw old refl)
Parses-params_from (suc fuel) _ _ _ (adds params s key value rest result is_parameter new run)
      enough =
    let less : length rest < length s =
      subst (Shortens (length s)) is_parameter (read_round-Shortens s) in
    rw (is_parameter, params_from)
      (rw new
        (Parses-params_from fuel (params ++ ((key, value) ∷ [])) rest result run (omega arith)))

-- On every text the loop of `parse_auth_params` ends by one of its own exits, at the end of the text or
-- on a repeated key, and the function gives what the loop gives, and no other result: its bound on
-- rounds is never met.
pub parse_auth_params-Parses :
    (s : Text)
    → Parses [] s (parse_auth_params s)
      × ((result : Result HeaderError (List (Text × Text)))
          → Parses [] s result
          → parse_auth_params s ≡ result)
unfolding parse_auth_params
parse_auth_params-Parses s = (
  params_from-Parses (suc (length s)) [] s (omega arith),
  (λ result run. Parses-params_from (suc (length s)) [] s result run (omega arith)),
)
