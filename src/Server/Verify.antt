-- ===== src/Server/Verify.antt =====
-- The verification of credentials in src/server/mpp.rs.
use mpp_rs.Prelude.{
  Text, codes, Bool, true, false, not, ◌&&◌, Option, none, some, List, [], ◌∷◌, leb, ◌==◌, bytes_eq,
  eq_ignore_ascii_case, to_decimal, if◌then◌else◌,
}
use mpp_rs.Prelude.Results.{Result, err, ok, ◌>>=◌, ◌>>◌, ok_or, err_if, map_err}
use mpp_rs.Error.{VerificationError, new, with_code, expired, credential_mismatch, ErrorCode}
use mpp_rs.Transfers.{Transfer}
use mpp_rs.Charge.Json.{Value, number, string, get_from}
use mpp_rs.Charge.Request.{ChargeRequest}
use mpp_rs.Charge.Tempo.{get_request_transfers}
use mpp_rs.Server.Challenge.{Clock, is_charge, or_empty, compute_challenge_id, constant_time_eq}
use mpp_rs.Server.Types.{
  PaymentCredential, Receipt, SessionRequest, Mpp, SessionVerifyResult, PaymentSuccessContext,
  Emitting, Codec,
}

unfoldable pub option_eq : Option Text → Option Text → Bool
option_eq none none = true
option_eq (some s) (some t) = bytes_eq s t
option_eq _ _ = false

abbrev pub invalid_credential : VerificationError
invalid_credential = with_code ErrorCode.invalid_credential

-- A condition on a configured value: none is asked if there is no such value.
abbrev pub when_some : {A : Type 0} → Option A → (A → Bool) → Result VerificationError (Unit {0})
when_some none test = ok tt
when_some (some a) test = err_if (not (test a)) credential_mismatch

unfoldable pub verify_opaque : Mpp → PaymentCredential → Result VerificationError (Unit {0})
unfolding option_eq
verify_opaque m credential =
    err_if (not (option_eq credential.challenge.opaque m.opaque)) credential_mismatch

-- A number or a string.
abbrev pub id_text : Option Value → Option Text
id_text none = none
id_text (some (number n)) = some n
id_text (some (string s)) = some s
id_text (some _) = none

unfoldable pub actual_chain_id : ChargeRequest → Option Text
unfolding get_from
actual_chain_id request = id_text (get_from (codes "chainId") request.method_details)

unfoldable pub verify_pinned_fields :
    Mpp → PaymentCredential → ChargeRequest → Result VerificationError (Unit {0})
unfolding verify_opaque is_charge option_eq actual_chain_id
verify_pinned_fields m credential request = do
  err_if (not (bytes_eq credential.challenge.method m.method.method)) credential_mismatch
  err_if (not (is_charge credential.challenge.intent)) credential_mismatch
  err_if (not (bytes_eq credential.challenge.realm m.realm)) credential_mismatch
  verify_opaque m credential
  when_some m.currency (λ currency. bytes_eq request.currency currency)
  when_some m.recipient (λ recipient. option_eq request.recipient (some recipient))
  when_some m.chain_id
      (λ chain_id. option_eq (actual_chain_id request) (some (to_decimal chain_id)))

unfoldable pub emit :
    {A : Type 0} → Result VerificationError A → (A → PaymentSuccessContext) → Emitting A
emit (err e) context = (err e, [])
emit (ok a) context = (ok a, context a ∷ [])

abbrev pub result_of :
    Emitting (SessionRequest × SessionVerifyResult) → Emitting SessionVerifyResult
result_of (err e, events) = (err e, events)
result_of (ok (request, verified), events) = (ok verified, events)

abbrev pub is_some : {A : Type 0} → Option A → Bool
is_some none = false
is_some (some a) = true

-- `==` on transfers.
unfoldable pub transfers_eq : List Transfer → List Transfer → Bool
unfolding option_eq
transfers_eq [] [] = true
transfers_eq (s ∷ ss) (t ∷ ts) =
    s.amount == t.amount
    && (s.recipient == t.recipient && (option_eq s.memo t.memo && transfers_eq ss ts))
transfers_eq _ _ = false

module _ (codec : Codec) where
  -- The comparison of the transfers under the method `tempo`.
  unfoldable pub check_transfers :
      PaymentCredential → ChargeRequest → ChargeRequest → Result VerificationError (Unit {0})
  unfolding get_request_transfers transfers_eq
  check_transfers credential request expected =
      if not (bytes_eq credential.challenge.method (codes "tempo"))
      then ok tt
      else (map_err (λ _. invalid_credential)
            (get_request_transfers codec.parsers codec.decode_details request)
          >>= λ got.
              map_err (λ _. invalid_credential)
                (get_request_transfers codec.parsers codec.decode_details expected)
              >>= λ wanted. err_if (not (transfers_eq got wanted)) credential_mismatch)

  unfoldable pub check_expected :
      PaymentCredential → ChargeRequest → ChargeRequest → Result VerificationError (Unit {0})
  unfolding check_transfers option_eq
  check_expected credential request expected = do
    err_if (not (bytes_eq request.amount expected.amount)) credential_mismatch
    err_if (not (bytes_eq request.currency expected.currency)) credential_mismatch
    err_if (not (option_eq request.recipient expected.recipient)) credential_mismatch
    check_transfers credential request expected

module _ (x : Clock) where
  unfoldable pub verify_hmac_and_expiry :
      Mpp → PaymentCredential → Result VerificationError (Unit {0})
  unfolding compute_challenge_id constant_time_eq
  verify_hmac_and_expiry m credential =
      let echo = credential.challenge in
      let expected_id =
        compute_challenge_id x m.secret_key m.realm echo.method echo.intent echo.request
          echo.expires echo.digest echo.opaque in
      err_if (not (constant_time_eq echo.id expected_id)) credential_mismatch
      >> (ok_or echo.expires credential_mismatch >>= λ expires.
          ok_or (x.parse_rfc3339 expires) new >>= λ expires_at.
          err_if (leb expires_at x.now_utc) expired)

  module _ (codec : Codec) where
    -- The checks and the payment method, before the event.
    unfoldable pub checked_receipt :
        Mpp → PaymentCredential → ChargeRequest → Result VerificationError Receipt
    unfolding verify_hmac_and_expiry verify_pinned_fields
    checked_receipt m credential request =
        verify_hmac_and_expiry m credential
        >> verify_pinned_fields m credential request
        >> m.method.verify credential request

    unfoldable pub verify : Mpp → PaymentCredential → ChargeRequest → Emitting Receipt
    unfolding checked_receipt emit
    verify m credential request = emit (checked_receipt m credential request) (λ receipt. record {
      credential = credential;
      receipt = receipt;
      request = codec.charge_value request;
      method = credential.challenge.method;
      intent = credential.challenge.intent;
      management_response = false;
    })

    unfoldable pub verify_credential : Mpp → PaymentCredential → Emitting Receipt
    unfolding verify
    verify_credential m credential = elim (codec.decode_charge credential.challenge.request) [
      | none ↦ (err new, [])
      | some request ↦ verify m credential request
    ]

    unfoldable pub verify_credential_with_expected_request :
        Mpp → PaymentCredential → ChargeRequest → Emitting Receipt
    unfolding verify check_expected
    verify_credential_with_expected_request m credential expected =
        elim (codec.decode_charge credential.challenge.request) [
          | none ↦ (err new, [])
          | some request ↦ elim (check_expected codec credential request expected) [
            | err e ↦ (err e, [])
            | ok _ ↦ verify m credential request
          ]
        ]

    -- The checks of a session's credential and the session method, before the event.
    unfoldable pub checked_session :
        Mpp → PaymentCredential → Result VerificationError (SessionRequest × SessionVerifyResult)
    unfolding verify_hmac_and_expiry verify_opaque eq_ignore_ascii_case
    checked_session m credential = do
      session ← ok_or m.session_method new
      verify_hmac_and_expiry m credential
      verify_opaque m credential
      request ← ok_or (codec.decode_session credential.challenge.request) new
      when_some m.currency (λ bound. eq_ignore_ascii_case request.currency bound)
      when_some m.recipient (λ bound. eq_ignore_ascii_case (or_empty request.recipient) bound)
      receipt ← session.verify_session credential request
      ok (
        request,
        record { receipt = receipt; management_response = session.respond credential receipt },
      )

    unfoldable pub verify_session : Mpp → PaymentCredential → Emitting SessionVerifyResult
    unfolding checked_session emit
    verify_session m credential = result_of (
        emit (checked_session m credential) (λ r. record {
          credential = credential;
          receipt = r.1.receipt;
          request = codec.session_value r.0;
          method = credential.challenge.method;
          intent = credential.challenge.intent;
          management_response = is_some r.1.management_response;
        }))
