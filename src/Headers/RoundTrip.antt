-- ===== src/Headers/RoundTrip.antt =====
-- Headers of src/protocol/core/headers.rs are read back.
use mpp_rs.Prelude.{
  Text, codes, true, false, Option, none, some, List, [], ◌∷◌, ◌++◌, ◌≡◌, refl, sym, ap, ◌∙◌,
  is_empty, is_whitespace, all_chars, trim_start, arith, bytes_eq, eq_ignore_ascii_case,
  to_ascii_lowercase,
}
use mpp_rs.Prelude.Results.{Result, ok, bind-ok, ok-injective}
use mpp_rs.Server.Challenge.{PaymentChallenge, lowercase}
use mpp_rs.Headers.Params.{
  HeaderError, strip_payment_scheme, strip_ascii_prefix, param, parse_auth_params,
}
use mpp_rs.Headers.Challenge.{
  optional_field, fields, format_parts, format_www_authenticate, is_ascii_lowercase,
  digest_is_valid, challenge_of, parse_www_authenticate,
}
use mpp_rs.Headers.Reads.{is_name}
use mpp_rs.Headers.Loop.{text_of, are_fresh, parse_auth_params-text_of, format_parts-text_of}

-- A challenge as the types and the formatter's callers make it.
pub record IsWellFormed (check_request : Text → Result HeaderError (Unit {0}))
    (c : PaymentChallenge) : Type 0 where
  pub id : is_empty c.id ≡ false
  pub method : is_empty c.method ≡ false
  pub lowercase_method : all_chars is_ascii_lowercase c.method ≡ true
  pub lowercase_intent : lowercase c.intent ≡ c.intent
  pub request : check_request c.request ≡ ok tt
  pub digest : digest_is_valid c.digest ≡ true

-- Whichever optional fields are there, the names differ.
optionals-are_fresh :
    (c : PaymentChallenge) (e d g o : Option Text)
    → are_fresh [] (fields (record c { expires = e; description = d; digest = g; opaque = o }))
      ≡ true
unfolding are_fresh param is_name all_chars bytes_eq
optionals-are_fresh c none none none none = refl
optionals-are_fresh c none none none (some o) = refl
optionals-are_fresh c none none (some g) none = refl
optionals-are_fresh c none none (some g) (some o) = refl
optionals-are_fresh c none (some d) none none = refl
optionals-are_fresh c none (some d) none (some o) = refl
optionals-are_fresh c none (some d) (some g) none = refl
optionals-are_fresh c none (some d) (some g) (some o) = refl
optionals-are_fresh c (some e) none none none = refl
optionals-are_fresh c (some e) none none (some o) = refl
optionals-are_fresh c (some e) none (some g) none = refl
optionals-are_fresh c (some e) none (some g) (some o) = refl
optionals-are_fresh c (some e) (some d) none none = refl
optionals-are_fresh c (some e) (some d) none (some o) = refl
optionals-are_fresh c (some e) (some d) (some g) none = refl
optionals-are_fresh c (some e) (some d) (some g) (some o) = refl

-- The lookups of the optional fields.
param-optionals :
    (e d g o : Option Text)
    → (let behind = optional_field (codes "expires") e (
          optional_field
            (codes "description")
            d
            (optional_field (codes "digest") g (optional_field (codes "opaque") o []))) in
        (param (codes "expires") behind ≡ e)
        × (param (codes "description") behind ≡ d)
        × (param (codes "digest") behind ≡ g)
        × (param (codes "opaque") behind ≡ o))
unfolding param bytes_eq
param-optionals none none none none = (refl, refl, refl, refl)
param-optionals none none none (some o) = (refl, refl, refl, refl)
param-optionals none none (some g) none = (refl, refl, refl, refl)
param-optionals none none (some g) (some o) = (refl, refl, refl, refl)
param-optionals none (some d) none none = (refl, refl, refl, refl)
param-optionals none (some d) none (some o) = (refl, refl, refl, refl)
param-optionals none (some d) (some g) none = (refl, refl, refl, refl)
param-optionals none (some d) (some g) (some o) = (refl, refl, refl, refl)
param-optionals (some e) none none none = (refl, refl, refl, refl)
param-optionals (some e) none none (some o) = (refl, refl, refl, refl)
param-optionals (some e) none (some g) none = (refl, refl, refl, refl)
param-optionals (some e) none (some g) (some o) = (refl, refl, refl, refl)
param-optionals (some e) (some d) none none = (refl, refl, refl, refl)
param-optionals (some e) (some d) none (some o) = (refl, refl, refl, refl)
param-optionals (some e) (some d) (some g) none = (refl, refl, refl, refl)
param-optionals (some e) (some d) (some g) (some o) = (refl, refl, refl, refl)

lowercase-of : (s : Text) → all_chars is_ascii_lowercase s ≡ true → lowercase s ≡ s
unfolding all_chars
lowercase-of [] h = refl
lowercase-of (c ∷ s) h =
    let same : to_ascii_lowercase c ≡ c = ground arith in rw (same, lowercase-of s (ground arith))

strip_payment_scheme-text :
    (s : Text) → strip_payment_scheme (codes "Payment " ++ s) ≡ some (b' ' ∷ s)
unfolding strip_payment_scheme strip_ascii_prefix trim_start eq_ignore_ascii_case bytes_eq
strip_payment_scheme-text s = refl

trim_start-fields :
    (c : PaymentChallenge) → trim_start is_whitespace (text_of (fields c)) ≡ text_of (fields c)
unfolding trim_start
trim_start-fields c = refl

module _ (check_request : Text → Result HeaderError (Unit {0})) where
  challenge_of-of :
      (params : List (Text × Text)) (c : PaymentChallenge)
      → IsWellFormed check_request c
      → param (codes "id") params ≡ some c.id
      → param (codes "realm") params ≡ some c.realm
      → param (codes "method") params ≡ some c.method
      → param (codes "intent") params ≡ some c.intent
      → param (codes "request") params ≡ some c.request
      → param (codes "expires") params ≡ c.expires
      → param (codes "description") params ≡ c.description
      → param (codes "digest") params ≡ c.digest
      → param (codes "opaque") params ≡ c.opaque
      → challenge_of check_request params ≡ ok c
  unfolding challenge_of
  challenge_of-of params c w id realm method intent request expires description digest opaque = rw (
    id,
    w.id,
    realm,
    method,
    w.method,
    w.lowercase_method,
    intent,
    request,
    w.request,
    digest,
    w.digest,
    expires,
    description,
    opaque,
    lowercase-of c.method w.lowercase_method,
    w.lowercase_intent,
  )

  challenge_of-fields :
      (c : PaymentChallenge)
      → IsWellFormed check_request c
      → challenge_of check_request (fields c) ≡ ok c
  unfolding param bytes_eq
  challenge_of-fields c w =
      let (expires, description, digest, opaque) =
        param-optionals c.expires c.description c.digest c.opaque in
      challenge_of-of (fields c) c w refl refl refl refl refl expires description digest opaque

  parse_www_authenticate-params :
      (header s : Text) (params : List (Text × Text))
      → strip_payment_scheme header ≡ some (b' ' ∷ s)
      → trim_start is_whitespace s ≡ s
      → parse_auth_params s ≡ ok params
      → parse_www_authenticate check_request header ≡ challenge_of check_request params
  unfolding parse_www_authenticate
  parse_www_authenticate-params header s params scheme blank read = rw (scheme, blank, read)

  -- A well-formed challenge whose header can be written, which takes that no field has a line break,
  -- is read back from the header, quotes, backslashes and separators in its fields included.
  pub parse_www_authenticate-format :
      (c : PaymentChallenge) (header : Text)
      → IsWellFormed check_request c
      → format_www_authenticate c ≡ ok header
      → parse_www_authenticate check_request header ≡ ok c
  unfolding format_www_authenticate
  parse_www_authenticate-format c header w e =
      let (parts, is_parts, done) = bind-ok (format_parts (fields c)) _ header e in
      let is_header =
        sym (ok-injective _ header done)
        ∙ ap (λ t. codes "Payment " ++ t) (format_parts-text_of (fields c) parts is_parts) in
      rw is_header (
        parse_www_authenticate-params (codes "Payment " ++ text_of (fields c)) (text_of (fields c))
          (fields c) (strip_payment_scheme-text (text_of (fields c))) (trim_start-fields c)
          (parse_auth_params-text_of (fields c)
            (optionals-are_fresh c c.expires c.description c.digest c.opaque))
        ∙ challenge_of-fields c w)
