-- ===== src/Tempo/Verify.antt =====
-- `verify` of the charge method in src/protocol/methods/tempo/method.rs: a credential that carries the hash
-- of a transaction, a signed transaction, or for an amount of zero a proof.
use mpp_rs.Prelude.{
  ℕ, Text, codes, Bool, true, false, not, ◌&&◌, ◌||◌, Option, none, some, ◌++◌, ◌==◌, leb, bytes_eq,
  if◌then◌else◌,
}
use mpp_rs.Prelude.Results.{Result, err, ok, ◌>>=◌, ◌>>◌, ok_or, err_if, map_err}
use mpp_rs.Error.{
  VerificationError, ErrorCode, new, with_code, credential_mismatch, network_error,
  chain_id_mismatch,
}
use mpp_rs.Charge.Request.{ChargeRequest}
use mpp_rs.Charge.Tempo.{amount_u256}
use mpp_rs.Server.Types.{PaymentCredential, Receipt}
use mpp_rs.Store.Memory.{MemoryStore}
use mpp_rs.Tempo.Source.{ProofSource, parse_proof_source}
use mpp_rs.Tempo.Hash.{reserve, success, verify_hash}
use mpp_rs.Tempo.Proof.{recover_proof_signer, verify_proof, proof_fingerprint}
use mpp_rs.Tempo.Payload.{
  PayloadType, transaction, hash, proof, PaymentPayload, payload_of, charge_chain_id,
}
use mpp_rs.Tempo.Broadcast.{KeyInfo, Node, Settings, broadcast_transaction}

-- The chain's id, asked once.
unfoldable pub chain_id_of : Node → Option ℕ → Result VerificationError ℕ × Option ℕ
chain_id_of n (some id) = (ok id, some id)
chain_id_of n none = elim n.get_chain_id [
  | none ↦ (err network_error, none)
  | some id ↦ (ok id, some id)
]

abbrev pub is_proof : PayloadType → Bool
is_proof proof = true
is_proof _ = false

module _ (n : Node) where
  unfoldable pub check_names : PaymentCredential → Result VerificationError (Unit {0})
  check_names credential =
      err_if (not (bytes_eq credential.challenge.method (codes "tempo"))) credential_mismatch
      >> err_if (not (bytes_eq credential.challenge.intent (codes "charge"))) credential_mismatch

  -- The payload and the amount.
  unfoldable pub checked_payload :
      PaymentCredential → ChargeRequest → ℕ → ℕ → Result VerificationError (PaymentPayload × ℕ)
  unfolding payload_of amount_u256
  checked_payload credential request expected_chain_id actual_chain_id = do
    err_if (not (actual_chain_id == expected_chain_id)) chain_id_mismatch
    raw ← ok_or (n.raw_payload credential.payload) (with_code ErrorCode.invalid_credential)
    payload ← ok_or (payload_of raw) (with_code ErrorCode.invalid_credential)
    amount ← map_err (λ _. new) (amount_u256 n.chain.parsers n.chain.decode_details request)
    err_if (amount == 0 && not (is_proof payload.payload_type)) new
    ok (payload, amount)

  -- An access key that the payer's account has, neither revoked nor expired.
  abbrev pub key_is_usable : Option KeyInfo → Bool
  key_is_usable none = false
  key_is_usable (some key) = not (key.expiry == 0 || (key.is_revoked || leb key.expiry n.now_secs))

  unfoldable pub check_signer :
      PaymentCredential → ProofSource → ℕ → Text → Result VerificationError (Unit {0})
  unfolding verify_proof recover_proof_signer
  check_signer credential source chain_id sig_hex =
      if verify_proof n.prover chain_id credential.challenge.id credential.challenge.realm sig_hex
        source.address
      then ok tt
      else (map_err (λ _. new)
            (recover_proof_signer n.prover chain_id credential.challenge.id
              credential.challenge.realm sig_hex)
          >>= λ recovered. err_if (not (key_is_usable (n.get_key source.address recovered))) new)

  -- Everything before the proof is recorded; its source.
  unfoldable pub checked_proof :
      PaymentCredential → ℕ → Text → ℕ → Result VerificationError ProofSource
  unfolding parse_proof_source check_signer
  checked_proof credential chain_id sig_hex amount = do
    err_if (not (amount == 0)) new
    source ← ok_or credential.source new
    parsed ← ok_or (parse_proof_source n.chain.log_parsers.parse_address source) new
    err_if (not (parsed.chain_id == chain_id)) new
    check_signer credential parsed chain_id sig_hex
    ok parsed

  unfoldable pub proof_key : ℕ → Text
  proof_key fingerprint = codes "mpp:proof:" ++ n.prover.lower_hex fingerprint

  -- With a store the proof is good for one use.
  unfoldable pub settle_proof :
      PaymentCredential
      → Text
      → Result VerificationError ProofSource
      → Option MemoryStore
      → Result VerificationError Receipt × Option MemoryStore
  unfolding proof_fingerprint proof_key reserve
  settle_proof credential sig_hex (err reason) store = (err reason, store)
  settle_proof credential sig_hex (ok source) none =
      (ok (success n.chain credential.challenge.id), none)
  settle_proof credential sig_hex (ok source) (some store) =
      elim (proof_fingerprint n.prover credential.challenge.id source.address source.chain_id
        sig_hex) [
          | err _ ↦ (err new, some store)
          | ok fingerprint ↦
              let (reserved, after) = reserve n.chain (proof_key fingerprint) (some store) in
              ((reserved >>= λ _. ok (success n.chain credential.challenge.id)), after)
        ]

  abbrev pub receipt_of :
      Result VerificationError ℕ × Option MemoryStore
      → Result VerificationError Receipt × Option MemoryStore
  receipt_of (result, store) =
      ((result >>= λ tx_hash. ok (success n.chain (n.chain.format_b256 tx_hash))), store)

  unfoldable pub verify_payload :
      Settings
      → PaymentCredential
      → ChargeRequest
      → ℕ
      → PayloadType
      → Text
      → ℕ
      → Option MemoryStore
      → Result VerificationError Receipt × Option MemoryStore
  unfolding verify_hash checked_proof settle_proof broadcast_transaction
  verify_payload m credential request chain_id hash content amount store =
      verify_hash n.chain (record { store = store; validate_sender = m.validate_sender }) content
        request credential.source chain_id credential.challenge.id credential.challenge.realm
  verify_payload m credential request chain_id proof content amount store =
      settle_proof credential content (checked_proof credential chain_id content amount) store
  verify_payload m credential request chain_id transaction content amount store = receipt_of (
      broadcast_transaction n m content request chain_id credential.challenge.id
        credential.challenge.realm store)

  -- `request.chain_id().unwrap_or(CHAIN_ID)`
  abbrev pub expected_chain_id : ChargeRequest → ℕ
  unfolding charge_chain_id
  expected_chain_id request = elim (charge_chain_id request) [ none ↦ 4217 | some id ↦ id ]

  unfoldable pub checked_credential :
      PaymentCredential
      → ChargeRequest
      → Option ℕ
      → Result VerificationError (PaymentPayload × ℕ) × Option ℕ
  unfolding check_names chain_id_of checked_payload charge_chain_id
  checked_credential credential request cached = elim (check_names credential) [
    | err reason ↦ (err reason, cached)
    | ok _ ↦
        let (actual, cached') = chain_id_of n cached in
        (
          (actual >>= λ id. checked_payload credential request (expected_chain_id request) id),
          cached',
        )
  ]

  -- The method keeps its store and the chain's id.
  unfoldable pub verify :
      Settings
      → PaymentCredential
      → ChargeRequest
      → Option MemoryStore
      → Option ℕ
      → Result VerificationError Receipt × Option MemoryStore × Option ℕ
  unfolding checked_credential verify_payload
  verify m credential request store cached =
      let (checked, cached') = checked_credential credential request cached in
      elim checked [
        | err reason ↦ (err reason, store, cached')
        | ok (payload, amount) ↦
            let (result, store') =
              verify_payload m credential request (expected_chain_id request) payload.payload_type
                payload.content amount store in
            (result, store', cached')
      ]
