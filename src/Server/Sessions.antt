-- ===== src/Server/Sessions.antt =====
-- `verify_session` of src/server/mpp.rs.
use mpp_rs.Prelude.{
  Text, Bool, true, not, Option, some, List, [], ◌∷◌, ◌≡◌, refl, ap, sym, ◌∙◌, eq_ignore_ascii_case,
  arith,
}
use mpp_rs.Prelude.Results.{Result, err, ok, ◌>>=◌, err_if, bind-ok, ok_or-ok}
use mpp_rs.Error.{VerificationError, new, credential_mismatch}
use mpp_rs.Server.Challenge.{Clock, or_empty}
use mpp_rs.Server.Types.{
  PaymentCredential, Receipt, SessionRequest, SessionMethod, Mpp, Codec, SessionVerifyResult,
  PaymentSuccessContext, Emitting,
}
use mpp_rs.Server.Verify.{
  when_some, option_eq, verify_opaque, is_some, verify_hmac_and_expiry, checked_session, emit,
  result_of, verify_session,
}
use mpp_rs.Server.Verified.{IsCurrent, verify_hmac_and_expiry-IsCurrent, option_eq-true}

-- What the server has checked of a session's credential, and what it has asked the session method.
pub record IsCheckedSession (x : Clock) (codec : Codec) (m : Mpp) (credential : PaymentCredential)
    (request : SessionRequest) (verified : SessionVerifyResult) : Type 0 where
  pub current : IsCurrent x m credential.challenge
  pub opaque : credential.challenge.opaque ≡ m.opaque
  pub decoded : codec.decode_session credential.challenge.request ≡ some request
  pub currency : (c : Text) → m.currency ≡ some c → eq_ignore_ascii_case request.currency c ≡ true
  pub recipient :
      (r : Text) → m.recipient ≡ some r → eq_ignore_ascii_case (or_empty request.recipient) r ≡ true
  pub answered :
      (session : SessionMethod) × (m.session_method ≡ some session)
      × (session.verify_session credential request ≡ ok verified.receipt)
      × (verified.management_response ≡ session.respond credential verified.receipt)

when_some-ok :
    {A : Type 0} (o : Option A) (test : A → Bool) (u : Unit {0})
    → when_some o test ≡ ok u
    → (a : A) → o ≡ some a
    → test a ≡ true
when_some-ok o test u e a h = unless_ok (rw h at e)
  where
    unless_ok : {b : Bool} → err_if (not b) credential_mismatch ≡ ok u → b ≡ true
    unless_ok {b} e = ground arith

pair_request :
    Result VerificationError (SessionRequest × SessionVerifyResult)
    → SessionRequest
    → SessionRequest
pair_request (ok (request, verified)) other = request
pair_request (err reason) other = other

pair_verified :
    Result VerificationError (SessionRequest × SessionVerifyResult)
    → SessionVerifyResult
    → SessionVerifyResult
pair_verified (ok (request, verified)) other = verified
pair_verified (err reason) other = other

answer_of :
    (session : SessionMethod) (credential : PaymentCredential) (got request : SessionRequest)
    (verified : SessionVerifyResult) (answer : Result VerificationError Receipt)
    → ◌>>=◌ {B = SessionRequest × SessionVerifyResult} answer (λ receipt.
      ok (
        got,
        record { receipt = receipt; management_response = session.respond credential receipt },
      ))
      ≡ ok (request, verified)
    → (got ≡ request)
      × (answer ≡ ok verified.receipt)
      × (verified.management_response ≡ session.respond credential verified.receipt)
unfolding pair_request pair_verified
answer_of session credential got request verified (err reason) e = cc
answer_of session credential got request verified (ok receipt) e =
    let same = ap (λ r. pair_verified r verified) e in
    (
      ap (λ r. pair_request r request) e,
      ap (λ v. ok v.receipt) same,
      sym (ap (λ v. v.management_response) same)
          ∙ ap (λ v. session.respond credential v.receipt) same,
    )

module _ (x : Clock) (codec : Codec) (m : Mpp) (credential : PaymentCredential) where
  checked_session-IsCheckedSession :
      (request : SessionRequest) (verified : SessionVerifyResult)
      → checked_session x codec m credential ≡ ok (request, verified)
      → IsCheckedSession x codec m credential request verified
  unfolding checked_session verify_opaque
  checked_session-IsCheckedSession request verified e =
      let end : SessionRequest × SessionVerifyResult = (request, verified) in
      let (session, is_set, e₁) = ok_or-ok m.session_method new _ end e in
      let (_, current, e₂) = bind-ok (verify_hmac_and_expiry x m credential) _ end e₁ in
      let (w, opaque, e₃) = bind-ok (verify_opaque m credential) _ end e₂ in
      let (got, decoded, e₄) =
        ok_or-ok (codec.decode_session credential.challenge.request) new _ end e₃ in
      let (u, currency, e₅) =
        bind-ok (when_some m.currency (λ c. eq_ignore_ascii_case got.currency c)) _ end e₄ in
      let (v, recipient, e₆) =
        bind-ok (when_some m.recipient (λ r. eq_ignore_ascii_case (or_empty got.recipient) r)) _ end
          e₅ in
      let (same, answer, response) =
        answer_of session credential got request verified (session.verify_session credential got)
          e₆ in
      record {
        current = verify_hmac_and_expiry-IsCurrent x m credential _ current;
        opaque = option_eq-true _ _ (opaque_of opaque);
        decoded = rw (← same) decoded;
        currency = rw (← same) (when_some-ok m.currency _ u currency);
        recipient = rw (← same) (when_some-ok m.recipient _ v recipient);
        answered = (session, is_set, rw (← same) answer, response);
      }
    where
      opaque_of :
          {w : Unit {0}}
          → verify_opaque m credential ≡ ok w
          → option_eq credential.challenge.opaque m.opaque ≡ true
      opaque_of h = ground arith

result_of-ok :
    (r : Result VerificationError (SessionRequest × SessionVerifyResult))
    (context : SessionRequest × SessionVerifyResult → PaymentSuccessContext)
    (verified : SessionVerifyResult) (events : List PaymentSuccessContext)
    → result_of (emit r context) ≡ (ok verified, events)
    → (request : SessionRequest) × (r ≡ ok (request, verified))
      × (events ≡ context (request, verified) ∷ [])
unfolding emit
result_of-ok (err reason) context verified events e = absurd (refused events e)
  where
    refused :
        (events : List PaymentSuccessContext)
        → ◌≡◌ {A = Emitting SessionVerifyResult} (err reason, []) (ok verified, events)
        → ⊥
    refused events e = cc
result_of-ok (ok (request, got)) context verified events e =
    let same : got ≡ verified = cc in (request, rw same refl, rw (← same) cc)

module _ (x : Clock) (codec : Codec) (m : Mpp) (credential : PaymentCredential) where
  abbrev pub session_success : SessionRequest → SessionVerifyResult → PaymentSuccessContext
  session_success request verified = record {
    credential = credential;
    receipt = verified.receipt;
    request = codec.session_value request;
    method = credential.challenge.method;
    intent = credential.challenge.intent;
    management_response = is_some verified.management_response;
  }

  -- A session credential that the server takes carries an id that its secret gives to the fields, has
  -- not expired, has the server's opaque data, and its request decodes and agrees with the configured
  -- currency and recipient up to the case of ASCII letters; receipt and response are those of the
  -- session method, and one event is emitted.
  pub verify_session-IsCheckedSession :
      (verified : SessionVerifyResult) (events : List PaymentSuccessContext)
      → verify_session x codec m credential ≡ (ok verified, events)
      → (request : SessionRequest) × IsCheckedSession x codec m credential request verified
        × (events ≡ session_success request verified ∷ [])
  unfolding verify_session
  verify_session-IsCheckedSession verified events e =
      let (request, taken, one) =
        result_of-ok (checked_session x codec m credential) (λ r. session_success r.0 r.1) verified
          events e in
      (request, checked_session-IsCheckedSession x codec m credential request verified taken, one)
