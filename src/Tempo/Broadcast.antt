-- ===== src/Tempo/Broadcast.antt =====
-- `broadcast_transaction` of src/protocol/methods/tempo/method.rs: a transaction that the client has
-- signed is checked, perhaps signed by the sponsor of fees, and sent.
use mpp_rs.Prelude.{ℕ, Text, codes, Bool, not, Option, none, List, ◌++◌, if◌then◌else◌}
use mpp_rs.Prelude.Results.{Result, err, ok, ◌>>=◌, ◌>>◌, ok_or, err_if}
use mpp_rs.Error.{VerificationError, new, network_error, transaction_failed}
use mpp_rs.Transfers.{Transfer}
use mpp_rs.Charge.Json.{Value}
use mpp_rs.Charge.Request.{ChargeRequest}
use mpp_rs.Store.Memory.{MemoryStore}
use mpp_rs.Tempo.Match.{ValidateSender, match_receipt_transfer_logs}
use mpp_rs.Tempo.Hash.{
  TxReceipt, Chain, charge_memo, unless_memo, assert_challenge_bound_memo, expected_transfers,
  replay_key, reserve,
}
use mpp_rs.Tempo.Policy.{FeePayerPolicyOverride}
use mpp_rs.Tempo.Calls.{Contracts, validate_transaction_transfers}
use mpp_rs.Tempo.Cosign.{Sponsor, cosign_fee_payer_transaction}
use mpp_rs.Tempo.Proof.{Prover}
use mpp_rs.Tempo.Payload.{RawPayload, charge_fee_payer}

-- The entry of the account keychain for a key.
pub record KeyInfo : Type 0 where
  pub expiry : ℕ
  pub is_revoked : Bool

-- The other libraries, the chain and the clock at one moment. A transaction that is sent is answered
-- with its receipt and its hash.
pub record Node : Type 0 where
  pub chain : Chain
  pub contracts : Contracts
  pub prover : Prover
  pub raw_payload : Value → Option RawPayload
  pub send_raw_transaction_sync : List ℕ → Option (TxReceipt × ℕ)
  pub get_chain_id : Option ℕ
  pub get_key : ℕ → ℕ → Option KeyInfo
  pub now_secs : ℕ

-- The settings of a charge method; `sponsor` is there if it has a signer for fees.
pub record Settings : Type 0 where
  pub validate_sender : ValidateSender
  pub sponsor : Option Sponsor
  pub fee_payer_policy_override : Option FeePayerPolicyOverride
  pub fee_payer_allowed_fee_tokens : Option (List ℕ)

-- What is sent, and what its receipt must show.
pub record Submission : Type 0 where
  pub final_tx_bytes : List ℕ
  pub currency : ℕ
  pub expected : List Transfer

module _ (n : Node) where
  unfoldable pub final_bytes :
      Settings → ChargeRequest → List ℕ → ℕ → Result VerificationError (List ℕ)
  unfolding charge_fee_payer cosign_fee_payer_transaction
  final_bytes m charge tx_bytes currency =
      if charge_fee_payer charge
      then (ok_or m.sponsor new >>= λ sponsor.
          cosign_fee_payer_transaction sponsor m.fee_payer_policy_override
            m.fee_payer_allowed_fee_tokens n.now_secs tx_bytes currency)
      else ok tx_bytes

  -- Everything before the transaction is recorded.
  unfoldable pub checked_submission :
      Settings → Text → ChargeRequest → ℕ → Result VerificationError Submission
  unfolding final_bytes expected_transfers validate_transaction_transfers charge_fee_payer
  checked_submission m signed_tx charge expected_chain_id = do
    tx_bytes ← ok_or (n.prover.parse_bytes signed_tx) new
    currency ← ok_or (n.chain.parsers.parse_address charge.currency) new
    expected ← expected_transfers n.chain charge
    final_tx_bytes ← final_bytes m charge tx_bytes currency
    validate_transaction_transfers n.contracts m.fee_payer_policy_override final_tx_bytes currency
        expected expected_chain_id (charge_fee_payer charge)
    ok (record { final_tx_bytes = final_tx_bytes; currency = currency; expected = expected })

  -- The broadcast and the check of its receipt; the hash.
  unfoldable pub checked_broadcast :
      Submission → ChargeRequest → Text → Text → Result VerificationError ℕ
  unfolding match_receipt_transfer_logs assert_challenge_bound_memo charge_memo
  checked_broadcast s charge challenge_id realm = do
    (receipt, hash) ← ok_or (n.send_raw_transaction_sync s.final_tx_bytes) network_error
    err_if (not receipt.status) transaction_failed
    logs ← ok_or receipt.logs new
    matched_logs ←
        match_receipt_transfer_logs receipt.sender s.currency none none n.chain.log_parsers logs
          s.expected
    unless_memo (charge_memo charge)
        (assert_challenge_bound_memo n.chain matched_logs challenge_id realm)
    ok hash

  unfoldable pub submission_key : List ℕ → Text
  submission_key bytes =
      codes "mpp:charge:submission:" ++ n.chain.format_b256 (n.prover.keccak256 bytes)

  -- The record of a hash after its checks.
  unfoldable pub record_hash :
      Result VerificationError ℕ
      → Option MemoryStore
      → Result VerificationError ℕ × Option MemoryStore
  unfolding reserve replay_key
  record_hash (err reason) store = (err reason, store)
  record_hash (ok hash) store =
      let (recorded, after) = reserve n.chain (replay_key n.chain hash) store in
      ((recorded >>= λ _. ok hash), after)

  unfoldable pub submit :
      Result VerificationError Submission
      → ChargeRequest
      → Text
      → Text
      → Option MemoryStore
      → Result VerificationError ℕ × Option MemoryStore
  unfolding reserve submission_key checked_broadcast record_hash
  submit (err reason) charge challenge_id realm store = (err reason, store)
  submit (ok s) charge challenge_id realm store =
      let (reserved, after) = reserve n.chain (submission_key s.final_tx_bytes) store in
      record_hash (reserved >>= λ _. checked_broadcast s charge challenge_id realm) after

  unfoldable pub broadcast_transaction :
      Settings
      → Text
      → ChargeRequest
      → ℕ
      → Text
      → Text
      → Option MemoryStore
      → Result VerificationError ℕ × Option MemoryStore
  unfolding checked_submission submit
  broadcast_transaction m signed_tx charge expected_chain_id challenge_id realm store =
      submit (checked_submission m signed_tx charge expected_chain_id) charge challenge_id realm
        store
