-- ===== src/Server/Issued.antt =====
-- The challenges that a server of src/server/mpp.rs issues are taken back by it.
use mpp_rs.Prelude.{
  ℕ, ◌<◌, Text, codes, Bool, true, false, ◌||◌, Option, none, some, ◌≡◌, refl, sym, leb, bytes_eq,
  bytes_eq_iff, to_decimal, arith, Bool-cases, Option-cases, inl, inr,
}
use mpp_rs.Prelude.Results.{ok, bind-ok, ok_or-ok, map_err, ok-injective}
use mpp_rs.Charge.Request.{ChargeRequest, with_base_units, invalid_transfers, json}
use mpp_rs.Charge.Json.{get, get_from, get_member, insert_member}
use mpp_rs.Charge.Tempo.{get_request_transfers}
use mpp_rs.Server.Challenge.{Clock, PaymentChallenge, to_echo, compute_challenge_id}
use mpp_rs.Server.Ids.{constant_time_eq_self}
use mpp_rs.Server.Types.{PaymentCredential, Mpp, Codec, ChargeOptions}
use mpp_rs.Server.Verify.{
  option_eq, verify_opaque, when_some, actual_chain_id, verify_pinned_fields,
  verify_hmac_and_expiry,
}
use mpp_rs.Server.Verified.{IsPinned}
use mpp_rs.Server.Create.{
  tempo_challenge, apply_pinned_opaque, tempo_charge_challenge, charge_request, charge_details,
  expires_or_default,
}

-- A challenge with the server's realm, an id of its own over the other fields and its opaque data.
abbrev pub IsOwn : Clock → Mpp → PaymentChallenge → Type 0
IsOwn x m c =
    (c.realm ≡ m.realm)
    × (c.opaque ≡ m.opaque)
    × (c.id
        ≡ compute_challenge_id x m.secret_key m.realm c.method c.intent c.request c.expires c.digest
            c.opaque)

pub apply_pinned_opaque-IsOwn :
    (x : Clock) (m : Mpp) (intent request expires : Text) (description : Option Text)
    → IsOwn x m (
        apply_pinned_opaque x m
          (tempo_challenge x m.secret_key m.realm intent request expires description))
unfolding apply_pinned_opaque tempo_challenge
apply_pinned_opaque-IsOwn x m intent request expires description = elim (Option-cases m.opaque) [
  | inl unset ↦ rw unset (refl, refl, refl)
  | inr (opaque, is_set) ↦ rw is_set (refl, refl, refl)
]

-- The clock at a later time.
abbrev pub at_time : Clock → ℕ → Clock
at_time x t = record x { now_utc = t }

pub verify_hmac_and_expiry-own :
    (x : Clock) (m : Mpp) (c : PaymentChallenge) (credential : PaymentCredential) (t at : ℕ)
    (expires : Text)
    → IsOwn x m c
    → credential.challenge ≡ to_echo c
    → c.expires ≡ some expires
    → x.parse_rfc3339 expires ≡ some at
    → t < at
    → verify_hmac_and_expiry (at_time x t) m credential ≡ ok tt
unfolding verify_hmac_and_expiry compute_challenge_id
verify_hmac_and_expiry-own x m c credential t at expires own echo is_set parsed live =
    let fresh : leb at t ≡ false = ground arith in
    rw (
      echo,
      own.2,
      constant_time_eq_self (
          compute_challenge_id x m.secret_key m.realm c.method c.intent c.request c.expires c.digest
            c.opaque),
      is_set,
      parsed,
      fresh,
    )

with_base_units-none :
    (request units : ChargeRequest)
    → request.decimals ≡ none
    → with_base_units request ≡ ok units
    → units ≡ request
unfolding with_base_units
with_base_units-none request units h e = ground arith

pub tempo_charge_challenge-inversion :
    (x : Clock) (codec : Codec) (secret_key realm : Text) (request : ChargeRequest)
    (expires description : Option Text) (c : PaymentChallenge)
    → request.decimals ≡ none
    → tempo_charge_challenge x codec secret_key realm request expires description ≡ ok c
    → (encoded expires' : Text) × (codec.encode_charge request ≡ some encoded)
      × (c ≡ tempo_challenge x secret_key realm (codes "charge") encoded expires' description)
unfolding tempo_charge_challenge with_base_units
tempo_charge_challenge-inversion x codec secret_key realm request expires description c h e =
    let (units, is_units, e₁) = bind-ok (with_base_units request) _ c e in
    let (plan, planned, e₂) =
      bind-ok
        (map_err invalid_transfers (get_request_transfers codec.parsers codec.decode_details units))
        _ c e₁ in
    let (encoded, is_encoded, e₃) = ok_or-ok (codec.encode_charge units) json _ c e₂ in
    let (expires', _, e₄) = bind-ok (expires_or_default x expires) _ c e₃ in
    let same = with_base_units-none request units h is_units in
    (encoded, expires', rw (← same) is_encoded, sym (ok-injective _ c e₄))

-- The chain's id stands among the details that the server gives the request.
pub chain_id-charge_request :
    (m : Mpp) (units currency recipient : Text) (options : ChargeOptions) (n : ℕ)
    → m.chain_id ≡ some n
    → actual_chain_id (charge_request m units currency recipient options) ≡ some (to_decimal n)
unfolding actual_chain_id charge_details get_from get get_member insert_member bytes_eq
chain_id-charge_request m units currency recipient options n h =
    elim (Bool-cases (options.fee_payer || m.fee_payer)) [
      | inl on ↦ rw (h, on)
      | inr off ↦ rw (h, off)
    ]

option_eq_self : (o : Option Text) → option_eq o o ≡ true
unfolding option_eq
option_eq_self none = refl
option_eq_self (some s) = (bytes_eq_iff s s).1 refl

when_some-of :
    {A : Type 0} (o : Option A) (test : A → Bool)
    → ((a : A) → o ≡ some a → test a ≡ true)
    → when_some o test ≡ ok tt
when_some-of none test h = refl
when_some-of (some a) test h = rw (h a refl)

-- The checks of the pinned fields ask no more than `IsPinned`.
pub verify_pinned_fields-of :
    (m : Mpp) (credential : PaymentCredential) (request : ChargeRequest)
    → IsPinned m credential.challenge request
    → verify_pinned_fields m credential request ≡ ok tt
unfolding verify_pinned_fields verify_opaque
verify_pinned_fields-of m credential request p =
    let echo = credential.challenge in
    let method = (bytes_eq_iff echo.method m.method.method).1 p.method in
    let realm = (bytes_eq_iff echo.realm m.realm).1 p.realm in
    let opaque : option_eq echo.opaque m.opaque ≡ true = rw p.opaque (option_eq_self m.opaque) in
    let currency =
      when_some-of m.currency (λ c. bytes_eq request.currency c)
        (λ c h. (bytes_eq_iff request.currency c).1 (p.currency c h)) in
    let recipient =
      when_some-of m.recipient (λ r. option_eq request.recipient (some r))
        (λ r h. rw (p.recipient r h) (option_eq_self (some r))) in
    let chain_id =
      when_some-of m.chain_id (λ n. option_eq (actual_chain_id request) (some (to_decimal n)))
        (λ n h. rw (p.chain_id n h) (option_eq_self (some (to_decimal n)))) in
    rw (method, p.intent, realm, opaque, currency, recipient, chain_id)
