-- ===== src/Server/Expected.antt =====
-- `verify_credential_with_expected_request` of src/server/mpp.rs.
use mpp_rs.Prelude.{
  codes, true, not, some, List, [], ◌∷◌, ◌≡◌, refl, ap, sym, bytes_eq_iff, arith, Option-cases, inl,
  inr,
}
use mpp_rs.Prelude.Results.{Result, err, ok, ◌>>=◌, err_if, map_err}
use mpp_rs.Error.{VerificationError, credential_mismatch}
use mpp_rs.Transfers.{Transfer, TransferError}
use mpp_rs.Charge.Request.{ChargeRequest}
use mpp_rs.Charge.Tempo.{get_request_transfers}
use mpp_rs.Server.Challenge.{Clock}
use mpp_rs.Server.Types.{PaymentCredential, Receipt, Mpp, Codec, PaymentSuccessContext, Emitting}
use mpp_rs.Server.Verify.{
  transfers_eq, check_transfers, check_expected, verify, verify_credential,
  verify_credential_with_expected_request, invalid_credential,
}
use mpp_rs.Server.Verified.{option_eq-true}

-- The request of the credential is the expected one in what it pays to whom; under `tempo` both have
-- the same transfers.
pub record IsExpected (codec : Codec) (credential : PaymentCredential)
    (request expected : ChargeRequest) : Type 0 where
  pub amount : request.amount ≡ expected.amount
  pub currency : request.currency ≡ expected.currency
  pub recipient : request.recipient ≡ expected.recipient
  pub transfers :
      credential.challenge.method ≡ codes "tempo"
      → (plan : List Transfer) × (get_request_transfers codec.parsers codec.decode_details request
          ≡ ok plan)
        × (get_request_transfers codec.parsers codec.decode_details expected ≡ ok plan)

transfers_eq-true : (ss ts : List Transfer) → transfers_eq ss ts ≡ true → ss ≡ ts
unfolding transfers_eq
transfers_eq-true [] [] e = refl
transfers_eq-true [] (t ∷ ts) e = ground arith
transfers_eq-true (s ∷ ss) [] e = ground arith
transfers_eq-true (s ∷ ss) (t ∷ ts) e =
    let amount : s.amount ≡ t.amount = ground arith in
    let recipient : s.recipient ≡ t.recipient = ground arith in
    let memo = option_eq-true s.memo t.memo (ground arith) in
    let rest = transfers_eq-true ss ts (ground arith) in cc

plans_of :
    (got wanted : Result TransferError (List Transfer)) (u : Unit {0})
    → (map_err (λ _. invalid_credential) got >>= λ g.
        map_err (λ _. invalid_credential) wanted >>= λ w.
        err_if (not (transfers_eq g w)) credential_mismatch)
      ≡ ok u
    → (plan : List Transfer) × (got ≡ ok plan) × (wanted ≡ ok plan)
plans_of (err a) wanted u e = cc
plans_of (ok g) (err a) u e = cc
plans_of (ok g) (ok w) u e = (g, refl, ap ok (sym (transfers_eq-true g w (ground arith))))

check_transfers-ok :
    (codec : Codec) (credential : PaymentCredential) (request expected : ChargeRequest)
    (u : Unit {0})
    → check_transfers codec credential request expected ≡ ok u
    → credential.challenge.method ≡ codes "tempo"
    → (plan : List Transfer) × (get_request_transfers codec.parsers codec.decode_details request
        ≡ ok plan)
      × (get_request_transfers codec.parsers codec.decode_details expected ≡ ok plan)
unfolding check_transfers
check_transfers-ok codec credential request expected u e h =
    let under_tempo = (bytes_eq_iff credential.challenge.method (codes "tempo")).1 h in
    plans_of (get_request_transfers codec.parsers codec.decode_details request)
      (get_request_transfers codec.parsers codec.decode_details expected) u (rw under_tempo at e)

check_expected-IsExpected :
    (codec : Codec) (credential : PaymentCredential) (request expected : ChargeRequest)
    (u : Unit {0})
    → check_expected codec credential request expected ≡ ok u
    → IsExpected codec credential request expected
unfolding check_expected
check_expected-IsExpected codec credential request expected u e = record {
  amount = (bytes_eq_iff _ _).0 (ground arith);
  currency = (bytes_eq_iff _ _).0 (ground arith);
  recipient = option_eq-true _ _ (ground arith);
  transfers = check_transfers-ok codec credential request expected u (ground arith);
}

refused :
    {reason : VerificationError} (receipt : Receipt) (events : List PaymentSuccessContext)
    → ◌≡◌ {A = Emitting Receipt} (err reason, []) (ok receipt, events)
    → ⊥
refused receipt events e = cc

-- The choice on the outcome of a check.
passed :
    (r : Result VerificationError (Unit {0})) (next : Emitting Receipt) (receipt : Receipt)
    (events : List PaymentSuccessContext)
    → (elim r as (λ _. Emitting Receipt) [ err reason ↦ (err reason, []) | ok _ ↦ next ])
      ≡ (ok receipt, events)
    → (u : Unit {0}) × (r ≡ ok u) × (next ≡ (ok receipt, events))
passed (err reason) next receipt events e = absurd (refused receipt events e)
passed (ok u) next receipt events e = (u, refl, e)

module _ (x : Clock) (codec : Codec) (m : Mpp) (credential : PaymentCredential)
    (expected : ChargeRequest) where
  -- What `verify_credential_with_expected_request` takes, `verify_credential` takes with the same
  -- receipt and event; the request that the credential carries agrees with the expected one in amount,
  -- currency and recipient, and under the method `tempo` both have the same transfer plan.
  pub verify_credential_with_expected_request-IsExpected :
      (receipt : Receipt) (events : List PaymentSuccessContext)
      → verify_credential_with_expected_request x codec m credential expected ≡ (ok receipt, events)
      → (request : ChargeRequest) × (codec.decode_charge credential.challenge.request
          ≡ some request)
        × IsExpected codec credential request expected
        × (verify_credential x codec m credential ≡ (ok receipt, events))
  unfolding verify_credential_with_expected_request verify_credential
  verify_credential_with_expected_request-IsExpected receipt events e =
      elim (Option-cases (codec.decode_charge credential.challenge.request)) [
        | inl unread ↦
            absurd
              (refused receipt events (rw (unread, verify_credential_with_expected_request) at e))
        | inr (request, read) ↦
            let (u, agrees, taken) =
              passed (check_expected codec credential request expected)
                (verify x codec m credential request) receipt events
                (rw (read, verify_credential_with_expected_request) at e) in
            (
              request,
              read,
              check_expected-IsExpected codec credential request expected u agrees,
              rw (read, verify_credential) taken,
            )
      ]
