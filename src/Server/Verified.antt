-- ===== src/Server/Verified.antt =====
-- What the server has checked when it takes a credential: `verify` in src/server/mpp.rs.
use mpp_rs.Prelude.{
  ℕ, ◌<◌, Text, true, false, not, Option, none, some, List, [], ◌∷◌, ◌≡◌, refl, ap, leb,
  bytes_eq_iff, to_decimal, arith, Option-cases, inl, inr,
}
use mpp_rs.Prelude.Results.{Result, err, ok, ◌>>=◌, ok_or, err_if, bind-ok, err_if-ok}
use mpp_rs.Error.{VerificationError, credential_mismatch, expired, new}
use mpp_rs.Charge.Request.{ChargeRequest}
use mpp_rs.Server.Challenge.{
  Clock, ChallengeEcho, is_charge, compute_challenge_id, constant_time_eq,
}
use mpp_rs.Server.Ids.{constant_time_eq-true}
use mpp_rs.Server.Types.{PaymentCredential, Receipt, Mpp, Codec, PaymentSuccessContext}
use mpp_rs.Server.Verify.{
  option_eq, verify_opaque, actual_chain_id, verify_pinned_fields, verify_hmac_and_expiry,
  checked_receipt, emit, verify,
}

-- The id is the server's own for these fields, and the challenge has not expired.
pub record IsCurrent (x : Clock) (m : Mpp) (echo : ChallengeEcho) : Type 0 where
  pub own_id :
      echo.id
      ≡ compute_challenge_id x m.secret_key m.realm echo.method echo.intent echo.request
          echo.expires echo.digest echo.opaque
  pub live :
      (expires : Text) × (at : ℕ) × (echo.expires ≡ some expires)
      × (x.parse_rfc3339 expires ≡ some at)
      × (x.now_utc < at)

-- The fields that the server pins.
pub record IsPinned (m : Mpp) (echo : ChallengeEcho) (request : ChargeRequest) : Type 0 where
  pub method : echo.method ≡ m.method.method
  pub intent : is_charge echo.intent ≡ true
  pub realm : echo.realm ≡ m.realm
  pub opaque : echo.opaque ≡ m.opaque
  pub currency : (c : Text) → m.currency ≡ some c → request.currency ≡ c
  pub recipient : (r : Text) → m.recipient ≡ some r → request.recipient ≡ some r
  pub chain_id : (n : ℕ) → m.chain_id ≡ some n → actual_chain_id request ≡ some (to_decimal n)

pub option_eq-true : (o p : Option Text) → option_eq o p ≡ true → o ≡ p
unfolding option_eq
option_eq-true none none e = refl
option_eq-true none (some t) e = cc
option_eq-true (some s) none e = cc
option_eq-true (some s) (some t) e = ap some ((bytes_eq_iff s t).0 e)

live_of :
    (x : Clock) (o : Option Text) (u : Unit {0})
    → (ok_or o credential_mismatch >>= λ expires.
        ok_or (x.parse_rfc3339 expires) new >>= λ expires_at.
        err_if (leb expires_at x.now_utc) expired)
      ≡ ok u
    → (expires : Text) × (at : ℕ) × (o ≡ some expires)
      × (x.parse_rfc3339 expires ≡ some at)
      × (x.now_utc < at)
live_of x none u e = cc
live_of x (some expires) u e = elim (Option-cases (x.parse_rfc3339 expires)) [
  | inl bad ↦ ground arith
  | inr (at, parsed) ↦ (expires, at, refl, parsed, ground arith)
]

pub verify_hmac_and_expiry-IsCurrent :
    (x : Clock) (m : Mpp) (credential : PaymentCredential) (u : Unit {0})
    → verify_hmac_and_expiry x m credential ≡ ok u
    → IsCurrent x m credential.challenge
unfolding verify_hmac_and_expiry
verify_hmac_and_expiry-IsCurrent x m credential u e =
    let echo = credential.challenge in
    let own =
      compute_challenge_id x m.secret_key m.realm echo.method echo.intent echo.request echo.expires
        echo.digest echo.opaque in
    let (same, live) = err_if-ok (not (constant_time_eq echo.id own)) credential_mismatch _ u e in
    record {
      own_id = constant_time_eq-true echo.id own (ground arith);
      live = live_of x echo.expires u live;
    }

pub verify_pinned_fields-IsPinned :
    (m : Mpp) (credential : PaymentCredential) (request : ChargeRequest) (u : Unit {0})
    → verify_pinned_fields m credential request ≡ ok u
    → IsPinned m credential.challenge request
unfolding verify_pinned_fields verify_opaque
verify_pinned_fields-IsPinned m credential request u e = record {
  method = (bytes_eq_iff _ _).0 (ground arith);
  intent = ground arith;
  realm = (bytes_eq_iff _ _).0 (ground arith);
  opaque = option_eq-true _ _ (ground arith);
  currency = λ c h. (bytes_eq_iff _ _).0 (ground arith);
  recipient = λ r h. option_eq-true _ _ (ground arith);
  chain_id = λ n h. option_eq-true _ _ (ground arith);
}

-- One event with a result, and none with an error.
pub emit-ok :
    {A : Type 0} (r : Result VerificationError A) (context : A → PaymentSuccessContext) (a : A)
    (events : List PaymentSuccessContext)
    → emit r context ≡ (ok a, events)
    → (r ≡ ok a) × (events ≡ context a ∷ [])
unfolding emit
emit-ok (err reason) context a events e = ground arith
emit-ok (ok b) context a events e = (cc, cc)

abbrev pub success_of : Codec → PaymentCredential → ChargeRequest → Receipt → PaymentSuccessContext
success_of codec credential request receipt = record {
  credential = credential;
  receipt = receipt;
  request = codec.charge_value request;
  method = credential.challenge.method;
  intent = credential.challenge.intent;
  management_response = false;
}

module _ (x : Clock) (codec : Codec) (m : Mpp) (credential : PaymentCredential)
    (request : ChargeRequest) where
  checked_receipt-ok :
      (receipt : Receipt)
      → checked_receipt x codec m credential request ≡ ok receipt
      → IsCurrent x m credential.challenge
        × IsPinned m credential.challenge request
        × (m.method.verify credential request ≡ ok receipt)
  unfolding checked_receipt
  checked_receipt-ok receipt e =
      let (u, current, e₁) = bind-ok (verify_hmac_and_expiry x m credential) _ receipt e in
      let (v, pinned, e₂) = bind-ok (verify_pinned_fields m credential request) _ receipt e₁ in
      (
        verify_hmac_and_expiry-IsCurrent x m credential u current,
        verify_pinned_fields-IsPinned m credential request v pinned,
        e₂,
      )

  -- A credential that `verify` takes has an id that this server's secret gives to its fields, has
  -- not expired and agrees with the fields that the server pins; the receipt is the payment method's
  -- own, and it is the one event that is emitted.
  pub verify-IsChecked :
      (receipt : Receipt) (events : List PaymentSuccessContext)
      → verify x codec m credential request ≡ (ok receipt, events)
      → IsCurrent x m credential.challenge
        × IsPinned m credential.challenge request
        × (m.method.verify credential request ≡ ok receipt)
        × (events ≡ success_of codec credential request receipt ∷ [])
  unfolding verify emit
  verify-IsChecked receipt events e =
      let (taken, one) =
        emit-ok (checked_receipt x codec m credential request) _ receipt events e in
      let (current, pinned, received) = checked_receipt-ok receipt taken in
      (current, pinned, received, one)
