-- ===== src/Server/Challenge.antt =====
-- src/protocol/core/challenge.rs with the names of types.rs: challenges, their echoes and ids. A text is
-- its characters; HMAC-SHA256 with its base64url text, the parser of RFC 3339 and the clock are
-- parameters.
use mpp_rs.Prelude.{
  ℕ, Text, codes, Bool, true, false, not, Option, none, some, List, [], ◌∷◌, ◌++◌, map, leb, ◌==◌,
  length, bit_or, bit_xor, as_bytes, if◌then◌else◌, eq_ignore_ascii_case, to_ascii_lowercase,
}
use mpp_rs.Prelude.Results.{Result, ◌>>◌, err_if}

-- `MethodName::new` and `IntentName::new`.
abbrev pub lowercase : Text → Text
lowercase name = map to_ascii_lowercase name

unfoldable pub is_charge : Text → Bool
unfolding eq_ignore_ascii_case
is_charge intent = eq_ignore_ascii_case intent (codes "charge")

unfoldable pub is_session : Text → Bool
unfolding eq_ignore_ascii_case
is_session intent = eq_ignore_ascii_case intent (codes "session")

-- A `Base64UrlJson` is its raw text.
pub record PaymentChallenge : Type 0 where
  pub id : Text
  pub realm : Text
  pub method : Text
  pub intent : Text
  pub request : Text
  pub expires : Option Text
  pub description : Option Text
  pub digest : Option Text
  pub opaque : Option Text

pub record ChallengeEcho : Type 0 where
  pub id : Text
  pub realm : Text
  pub method : Text
  pub intent : Text
  pub request : Text
  pub expires : Option Text
  pub digest : Option Text
  pub opaque : Option Text

abbrev pub to_echo : PaymentChallenge → ChallengeEcho
to_echo c = record {
  id = c.id;
  realm = c.realm;
  method = c.method;
  intent = c.intent;
  request = c.request;
  expires = c.expires;
  digest = c.digest;
  opaque = c.opaque;
}

-- The functions of other libraries. `mac` is the base64url text of the HMAC of a text under a secret.
-- A time is a number, and `none` is the error of a call that returns a `Result`.
pub record Clock : Type 0 where
  pub mac : Text → Text → Text
  pub parse_rfc3339 : Text → Option ℕ
  pub format_rfc3339 : ℕ → Option Text
  pub now_utc : ℕ

-- `unwrap_or("")`
abbrev pub or_empty : Option Text → Text
or_empty none = []
or_empty (some s) = s

abbrev pub join_with : ℕ → List Text → Text
join_with d [] = []
join_with d (s ∷ []) = s
join_with d (s ∷ t ∷ ts) = s ++ (d ∷ join_with d (t ∷ ts))

unfoldable pub hmac_input :
    Text → Text → Text → Text → Option Text → Option Text → Option Text → Text
hmac_input realm method intent request expires digest opaque =
    join_with b'|' (
      realm ∷ method ∷ intent ∷ request ∷ or_empty expires ∷ or_empty digest ∷ or_empty opaque ∷ [])

-- The loop of the comparison, on bytes.
abbrev pub xor_all : ℕ → List ℕ → List ℕ → ℕ
xor_all result (x ∷ xs) (y ∷ ys) = xor_all (bit_or result (bit_xor x y)) xs ys
xor_all result _ _ = result

unfoldable pub constant_time_eq : Text → Text → Bool
unfolding as_bytes
constant_time_eq a b =
    if not (length (as_bytes a) == length (as_bytes b))
    then false
    else xor_all 0 (as_bytes a) (as_bytes b) == 0

pub data ChallengeError : Type 0 where
  unsupported_payment_method : Text → Text → ChallengeError
  invalid_challenge : Text → Text → ChallengeError
  payment_expired : Option Text → ChallengeError

module _ (x : Clock) where
  unfoldable pub compute_challenge_id :
      Text → Text → Text → Text → Text → Option Text → Option Text → Option Text → Text
  unfolding hmac_input
  compute_challenge_id secret_key realm method intent request expires digest opaque =
      x.mac secret_key (hmac_input realm method intent request expires digest opaque)

  unfoldable pub with_secret_key_full :
      Text
      → Text
      → Text
      → Text
      → Text
      → Option Text
      → Option Text
      → Option Text
      → Option Text
      → PaymentChallenge
  unfolding compute_challenge_id
  with_secret_key_full secret_key realm method intent request expires digest description opaque =
      record {
        id =
            compute_challenge_id secret_key realm (lowercase method) (lowercase intent) request
              expires digest opaque;
        realm = realm;
        method = lowercase method;
        intent = lowercase intent;
        request = request;
        expires = expires;
        description = description;
        digest = digest;
        opaque = opaque;
      }

  unfoldable pub verify_id : PaymentChallenge → Text → Bool
  unfolding compute_challenge_id constant_time_eq
  verify_id c secret_key = constant_time_eq c.id (
      compute_challenge_id secret_key c.realm c.method c.intent c.request c.expires c.digest
        c.opaque)

  -- A timestamp that does not parse counts as expired.
  abbrev time_is_past : Option ℕ → Bool
  time_is_past none = true
  time_is_past (some expires) = leb expires x.now_utc

  unfoldable pub is_expired : PaymentChallenge → Bool
  is_expired c = elim c.expires [ none ↦ false | some s ↦ time_is_past (x.parse_rfc3339 s) ]

  unfoldable pub validate_for_charge : PaymentChallenge → Text → Result ChallengeError (Unit {0})
  unfolding is_expired is_charge eq_ignore_ascii_case
  validate_for_charge c method =
      err_if (not (eq_ignore_ascii_case c.method method))
        (unsupported_payment_method c.method method)
      >> err_if (not (is_charge c.intent)) (invalid_challenge c.id c.intent)
      >> err_if (is_expired c) (payment_expired c.expires)

  unfoldable pub validate_for_session : PaymentChallenge → Text → Result ChallengeError (Unit {0})
  unfolding is_expired is_session eq_ignore_ascii_case
  validate_for_session c method =
      err_if (not (eq_ignore_ascii_case c.method method))
        (unsupported_payment_method c.method method)
      >> err_if (not (is_session c.intent)) (invalid_challenge c.id c.intent)
      >> err_if (is_expired c) (payment_expired c.expires)
