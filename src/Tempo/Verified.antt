-- ===== src/Tempo/Verified.antt =====
-- What a credential that the charge method takes has shown: `verify` of
-- src/protocol/methods/tempo/method.rs.
use mpp_rs.Prelude.{
  ℕ, codes, Bool, true, false, not, ◌&&◌, Option, none, some, ◌==◌, ==_iff, bytes_eq, bytes_eq_iff,
  ◌≡◌, refl, sym, ap, ◌∙◌, Option-cases, inl, inr,
}
use mathlib.Core.Path.{subst}
use mpp_rs.Prelude.Results.{
  Result, err, ok, bind-ok, err_if, err_if-ok, ok_or-ok, ok-injective, map_err-ok, result_cases,
}
use mpp_rs.Error.{
  VerificationError, ErrorCode, new, with_code, credential_mismatch, chain_id_mismatch,
}
use mpp_rs.Charge.Request.{ChargeRequest}
use mpp_rs.Charge.Tempo.{amount_u256}
use mpp_rs.Server.Types.{PaymentCredential, Receipt}
use mpp_rs.Store.Memory.{MemoryStore}
use mpp_rs.Tempo.CallsPaid.{not-false}
use mpp_rs.Tempo.Payload.{RawPayload, PaymentPayload, payload_of}
use mpp_rs.Tempo.Broadcast.{Node, Settings}
use mpp_rs.Tempo.Verify.{
  chain_id_of, is_proof, check_names, checked_payload, expected_chain_id, checked_credential,
  verify,
}
use mpp_rs.Tempo.Reserved.{refused}
use mpp_rs.Tempo.Shown.{IsShown, verify_payload-IsShown}

-- A credential that the charge method takes.
pub record IsVerified (n : Node) (m : Settings) (credential : PaymentCredential)
    (request : ChargeRequest) (store : Option MemoryStore) (after : Option MemoryStore)
    (cached : Option ℕ) : Type 0 where
  pub method : credential.challenge.method ≡ codes "tempo"
  pub intent : credential.challenge.intent ≡ codes "charge"
  pub on_chain : cached ≡ some (expected_chain_id n request)
  pub raw : RawPayload
  pub has_payload : n.raw_payload credential.payload ≡ some raw
  pub payload : PaymentPayload
  pub is_payload : payload_of raw ≡ some payload
  pub amount : ℕ
  pub is_amount : amount_u256 n.chain.parsers n.chain.decode_details request ≡ ok amount
  pub shown :
      IsShown n m credential request
        (expected_chain_id n request)
        payload.payload_type
        payload.content
        amount
        store
        after

-- A check that passed has found nothing.
passed : (b : Bool) (reason : VerificationError) (u : Unit {0}) → err_if b reason ≡ ok u → b ≡ false
passed true reason u e = cc
passed false reason u e = refl

chain_id_of-ok :
    (n : Node) (cached : Option ℕ) (id : ℕ)
    → (chain_id_of n cached).0 ≡ ok id
    → (chain_id_of n cached).1 ≡ some id
unfolding chain_id_of
chain_id_of-ok n (some known) id e = ap some (ok-injective known id e)
chain_id_of-ok n none id e = elim (Option-cases n.get_chain_id) [
  | inl absent ↦ cc
  | inr (asked, there) ↦ cc
]

unreadable :
    {reason : VerificationError} {r : Receipt} {store after : Option MemoryStore}
    {cached cached' : Option ℕ}
    → ◌≡◌ {A = Result VerificationError Receipt × Option MemoryStore × Option ℕ}
        (err reason, store, cached)
        (ok r, after, cached')
    → ⊥
unreadable h = cc

-- Both names of a challenge that the method takes.
check_names-ok :
    (n : Node) (credential : PaymentCredential) (u : Unit {0})
    → check_names n credential ≡ ok u
    → (credential.challenge.method ≡ codes "tempo") × (credential.challenge.intent ≡ codes "charge")
unfolding check_names
check_names-ok n credential u e =
    let (is_tempo, e₁) =
      err_if-ok (not (bytes_eq credential.challenge.method (codes "tempo"))) credential_mismatch _ u
        e in
    (
      (bytes_eq_iff _ _).0 (not-false _ is_tempo),
      (bytes_eq_iff _ _).0 (not-false _ (passed _ _ u e₁)),
    )

module _ (n : Node) (credential : PaymentCredential) (request : ChargeRequest) where
  -- What the checks before the payload have shown.
  abbrev IsRead : ℕ → ℕ → PaymentPayload × ℕ → Type 0
  IsRead expected actual (payload, amount) =
      (actual ≡ expected)
      × ((raw : RawPayload) × (n.raw_payload credential.payload ≡ some raw)
          × (payload_of raw ≡ some payload)
          × (amount_u256 n.chain.parsers n.chain.decode_details request ≡ ok amount)
          × ((amount == 0 && not (is_proof payload.payload_type)) ≡ false))

  checked_payload-IsRead :
      (expected actual : ℕ) (read : PaymentPayload × ℕ)
      → checked_payload n credential request expected actual ≡ ok read
      → IsRead expected actual read
  unfolding checked_payload
  checked_payload-IsRead expected actual read e =
      let (same, e₁) = err_if-ok (not (actual == expected)) chain_id_mismatch _ read e in
      let (raw, there, e₂) =
        ok_or-ok (n.raw_payload credential.payload) (with_code ErrorCode.invalid_credential) _ read
          e₁ in
      let (payload, is_payload, e₃) =
        ok_or-ok (payload_of raw) (with_code ErrorCode.invalid_credential) _ read e₂ in
      let (amount, is_amount, e₄) = bind-ok _ _ read e₃ in
      let (above, e₅) =
        err_if-ok (amount == 0 && not (is_proof payload.payload_type)) new _ read e₄ in
      subst (IsRead expected actual) (ok-injective (payload, amount) read e₅) (
        (==_iff _ _).0 (not-false _ same),
        (raw, there, is_payload, map_err-ok (λ _. new) _ amount is_amount, above),
      )

  checked_credential-IsRead :
      (cached : Option ℕ) (read : PaymentPayload × ℕ) (cached' : Option ℕ)
      → checked_credential n credential request cached ≡ (ok read, cached')
      → (credential.challenge.method ≡ codes "tempo")
        × (credential.challenge.intent ≡ codes "charge")
        × (cached' ≡ some (expected_chain_id n request))
        × IsRead (expected_chain_id n request) (expected_chain_id n request) read
  unfolding checked_credential
  checked_credential-IsRead cached read cached' e = elim (result_cases (check_names n credential)) [
    | inl (reason, bad) ↦ absurd (refused (rw (bad, checked_credential) at e))
    | inr (u, good) ↦
        let (is_tempo, is_charge) = check_names-ok n credential u good in
        let e₁ = rw (good, checked_credential) at e in
        let expected : ℕ = expected_chain_id n request in
        let (actual, is_actual, e₂) =
          bind-ok (chain_id_of n cached).0 (checked_payload n credential request expected) read
            (ap (λ q. q.0) e₁) in
        let got = checked_payload-IsRead expected actual read e₂ in
        let seen = chain_id_of-ok n cached actual is_actual in
        (is_tempo, is_charge, sym (ap (λ q. q.1) e₁) ∙ seen ∙ ap some got.0, (refl, got.1))
  ]

  pub verify-IsVerified :
      (m : Settings) (store : Option MemoryStore) (cached : Option ℕ) (r : Receipt)
      (after : Option MemoryStore) (cached' : Option ℕ)
      → verify n m credential request store cached ≡ (ok r, after, cached')
      → IsVerified n m credential request store after cached'
  unfolding verify
  verify-IsVerified m store cached r after cached' e =
      let p = checked_credential n credential request cached in
      elim (result_cases p.0) [
        | inl (reason, bad) ↦ absurd (unreadable (rw (bad, verify) at e))
        | inr ((payload, amount), good) ↦
            let e₁ = rw (good, verify) at e in
            let same_cache : p.1 ≡ cached' = ap (λ q. q.2) e₁ in
            let (is_tempo, is_charge, seen, (_, (raw, there, is_payload, is_amount, above))) =
              checked_credential-IsRead cached (payload, amount) cached'
                (λ i. (good i, same_cache i)) in
            record {
              method = is_tempo;
              intent = is_charge;
              on_chain = seen;
              raw = raw;
              has_payload = there;
              payload = payload;
              is_payload = is_payload;
              amount = amount;
              is_amount = is_amount;
              shown =
                  verify_payload-IsShown n m credential request (expected_chain_id n request)
                    payload.payload_type payload.content amount store r after above
                    (ap (λ q. (q.0, q.1)) e₁);
            }
      ]
