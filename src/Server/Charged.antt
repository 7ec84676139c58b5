-- ===== src/Server/Charged.antt =====
-- From `charge_with_options` to `verify_credential` in src/server/mpp.rs: a server takes back the
-- challenges that it issues.
use mpp_rs.Prelude.{
  ℕ, ◌<◌, Text, codes, true, Option, none, some, ◌≡◌, refl, ap, sym, ◌∙◌, eq_ignore_ascii_case,
  bytes_eq, Option-cases, inl, inr, arith,
}
use mpp_rs.Prelude.Results.{ok, bind-ok, map_err, ok-injective, map_err-ok}
use mpp_rs.Amounts.{parse_dollar_amount}
use mpp_rs.Charge.Json.{get_from}
use mpp_rs.Charge.Request.{ChargeRequest, invalid_dollars}
use mpp_rs.Server.Challenge.{Clock, PaymentChallenge, to_echo, is_charge}
use mpp_rs.Server.Types.{PaymentCredential, Mpp, Codec, ChargeOptions}
use mpp_rs.Server.Verify.{
  verify_hmac_and_expiry, verify_pinned_fields, actual_chain_id, checked_receipt, emit, verify,
  verify_credential,
}
use mpp_rs.Server.Verified.{IsPinned, success_of}
use mpp_rs.Server.Create.{
  tempo_challenge, apply_pinned_opaque, tempo_charge_challenge, charge_challenge_with_options,
  charge_with_options, charge_request, require_bound_config,
}
use mpp_rs.Server.Issued.{
  IsOwn, at_time, apply_pinned_opaque-IsOwn, verify_hmac_and_expiry-own,
  tempo_charge_challenge-inversion, chain_id-charge_request, verify_pinned_fields-of,
}

-- What a challenge of `charge_with_options` was made of.
pub record IsCharge (x : Clock) (codec : Codec) (m : Mpp) (amount : Text) (options : ChargeOptions)
    (c : PaymentChallenge) : Type 0 where
  pub units : Text
  pub currency : Text
  pub recipient : Text
  pub encoded : Text
  pub expires : Text
  pub is_units : parse_dollar_amount amount m.decimals ≡ ok units
  pub is_currency : m.currency ≡ some currency
  pub is_recipient : m.recipient ≡ some recipient
  pub is_encoded :
      codec.encode_charge (charge_request m units currency recipient options) ≡ some encoded
  pub is_challenge :
      c
      ≡ apply_pinned_opaque x m (
          tempo_challenge x m.secret_key m.realm
            (codes "charge")
            encoded
            expires
            options.description)

-- A request that a codec has read back: JSON may give the members of its details in another order.
pub record IsReadBack (r back : ChargeRequest) : Type 0 where
  pub amount : back.amount ≡ r.amount
  pub currency : back.currency ≡ r.currency
  pub decimals : back.decimals ≡ r.decimals
  pub recipient : back.recipient ≡ r.recipient
  pub description : back.description ≡ r.description
  pub external_id : back.external_id ≡ r.external_id
  pub details : (key : Text) → get_from key back.method_details ≡ get_from key r.method_details

same_some : {o : Option Text} {s k : Text} → o ≡ some s → o ≡ some k → s ≡ k
same_some p q = cc

chain_id-IsReadBack :
    (r back : ChargeRequest) → IsReadBack r back → actual_chain_id back ≡ actual_chain_id r
unfolding actual_chain_id
chain_id-IsReadBack r back h = rw (h.details (codes "chainId")) refl

bound_config :
    (m : Mpp) (currency recipient : Text)
    → require_bound_config m ≡ ok (currency, recipient)
    → (m.currency ≡ some currency) × (m.recipient ≡ some recipient)
unfolding require_bound_config
bound_config m currency recipient e = ground arith

module _ (x : Clock) (codec : Codec) (m : Mpp) where
  charge_challenge_with_options-inversion :
      (request : ChargeRequest) (expires description : Option Text) (c : PaymentChallenge)
      → request.decimals ≡ none
      → charge_challenge_with_options x codec m request expires description ≡ ok c
      → (encoded expires' : Text) × (codec.encode_charge request ≡ some encoded)
        × (c
            ≡ apply_pinned_opaque x m (
                tempo_challenge x m.secret_key m.realm
                  (codes "charge")
                  encoded
                  expires'
                  description))
  unfolding charge_challenge_with_options
  charge_challenge_with_options-inversion request expires description c h e =
      let (challenge, made, e₁) =
        bind-ok (tempo_charge_challenge x codec m.secret_key m.realm request expires description) _
          c e in
      let (encoded, expires', is_encoded, is_challenge) =
        tempo_charge_challenge-inversion x codec m.secret_key m.realm request expires description
          challenge h made in
      (
        encoded,
        expires',
        is_encoded,
        sym (ok-injective _ c e₁) ∙ ap (λ d. apply_pinned_opaque x m d) is_challenge,
      )

  charge_with_options-IsCharge :
      (amount : Text) (options : ChargeOptions) (c : PaymentChallenge)
      → charge_with_options x codec m amount options ≡ ok c
      → IsCharge x codec m amount options c
  unfolding charge_with_options
  charge_with_options-IsCharge amount options c e =
      let ((currency, recipient), bound, e₁) = bind-ok (require_bound_config m) _ c e in
      let (units, is_units, e₂) =
        bind-ok (map_err invalid_dollars (parse_dollar_amount amount m.decimals)) _ c e₁ in
      let (encoded, expires, is_encoded, is_challenge) =
        charge_challenge_with_options-inversion (charge_request m units currency recipient options)
          options.expires options.description c refl e₂ in
      record {
        units = units;
        currency = currency;
        recipient = recipient;
        encoded = encoded;
        expires = expires;
        is_units =
            map_err-ok invalid_dollars (parse_dollar_amount amount m.decimals) units is_units;
        is_currency = (bound_config m currency recipient bound).0;
        is_recipient = (bound_config m currency recipient bound).1;
        is_encoded = is_encoded;
        is_challenge = is_challenge;
      }

-- A credential that passes the checks has the payment method's answer.
verify_credential-of :
    (x : Clock) (codec : Codec) (m : Mpp) (credential : PaymentCredential) (request : ChargeRequest)
    → codec.decode_charge credential.challenge.request ≡ some request
    → verify_hmac_and_expiry x m credential ≡ ok tt
    → verify_pinned_fields m credential request ≡ ok tt
    → verify_credential x codec m credential
      ≡ emit (m.method.verify credential request) (success_of codec credential request)
unfolding verify checked_receipt verify_credential
verify_credential-of x codec m credential request decoded current pinned =
    rw (decoded, verify_credential) (rw (current, pinned))

charge_word : is_charge (codes "charge") ≡ true
unfolding is_charge eq_ignore_ascii_case bytes_eq
charge_word = refl

-- The server's opaque data leaves the other fields as they are.
fields-apply_pinned_opaque :
    (x : Clock) (m : Mpp) (c : PaymentChallenge)
    → (let d = apply_pinned_opaque x m c in
        (d.method ≡ c.method)
        × (d.intent ≡ c.intent)
        × (d.request ≡ c.request)
        × (d.expires ≡ c.expires))
unfolding apply_pinned_opaque
fields-apply_pinned_opaque x m c = elim (Option-cases m.opaque) [
  | inl unset ↦ rw unset (refl, refl, refl, refl)
  | inr (opaque, is_set) ↦ rw is_set (refl, refl, refl, refl)
]

module _ (x : Clock) (codec : Codec) (m : Mpp) (amount : Text) (options : ChargeOptions)
    (c : PaymentChallenge) (credential : PaymentCredential) (t at : ℕ) (expires : Text) where
  -- A server of the method `tempo` takes the challenges that it issues: if a credential echoes a
  -- challenge of `charge_with_options` whose expiry is to come, and the codec reads back what it writes
  -- of these requests, the members of the details in any order, `verify_credential` passes every check,
  -- and its result is the payment method's answer for the request read back, which has the configured
  -- currency and recipient, the amount asked for, and the same details under every name.
  pub charge_with_options-IsTaken :
      ((units currency recipient s : Text)
        → codec.encode_charge (charge_request m units currency recipient options) ≡ some s
        → (back : ChargeRequest) × (codec.decode_charge s ≡ some back)
          × IsReadBack (charge_request m units currency recipient options) back)
      → m.method.method ≡ codes "tempo"
      → charge_with_options x codec m amount options ≡ ok c
      → credential.challenge ≡ to_echo c
      → c.expires ≡ some expires
      → x.parse_rfc3339 expires ≡ some at
      → t < at
      → (made : IsCharge x codec m amount options c) × (back : ChargeRequest) × IsReadBack
          (charge_request m made.units made.currency made.recipient options)
          back
        × (verify_credential (at_time x t) codec m credential
            ≡ emit (m.method.verify credential back) (success_of codec credential back))
  unfolding tempo_challenge
  charge_with_options-IsTaken read tempo e echo is_set parsed live =
      let made = charge_with_options-IsCharge x codec m amount options c e in
      let request = charge_request m made.units made.currency made.recipient options in
      let whole =
        tempo_challenge x m.secret_key m.realm (codes "charge") made.encoded made.expires
          options.description in
      let (method, intent, encoded, _) = fields-apply_pinned_opaque x m whole in
      let own : IsOwn x m c = rw made.is_challenge (
        apply_pinned_opaque-IsOwn x m (codes "charge") made.encoded made.expires
          options.description) in
      let is_encoded = ap (λ e. e.request) echo ∙ ap (λ d. d.request) made.is_challenge ∙ encoded in
      let is_intent = ap (λ e. e.intent) echo ∙ ap (λ d. d.intent) made.is_challenge ∙ intent in
      let (back, is_back, same) =
        read made.units made.currency made.recipient made.encoded made.is_encoded in
      let decoded : codec.decode_charge credential.challenge.request ≡ some back =
        rw is_encoded is_back in
      let current =
        verify_hmac_and_expiry-own x m c credential t at expires own echo is_set parsed live in
      let pinned : IsPinned m credential.challenge back = record {
        method =
            ap (λ e. e.method) echo ∙ ap (λ d. d.method) made.is_challenge ∙ method ∙ sym tempo;
        intent = rw is_intent charge_word;
        realm = ap (λ e. e.realm) echo ∙ own.0;
        opaque = ap (λ e. e.opaque) echo ∙ own.1;
        currency = λ k h. same.currency ∙ same_some made.is_currency h;
        recipient = λ k h. same.recipient ∙ sym made.is_recipient ∙ h;
        chain_id = λ n h.
            chain_id-IsReadBack request back same
            ∙ chain_id-charge_request m made.units made.currency made.recipient options n h;
      } in
      (
        made,
        back,
        same,
        verify_credential-of (at_time x t) codec m credential back decoded current
            (verify_pinned_fields-of m credential back pinned),
      )
