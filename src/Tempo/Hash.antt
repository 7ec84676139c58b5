-- ===== src/Tempo/Hash.antt =====
-- `verify_hash` of src/protocol/methods/tempo/method.rs: a payment that the client has sent to the chain
-- itself. What the provider answers is a parameter, and so is the text of a hash in a key.
use mpp_rs.Prelude.{
  ℕ, Text, codes, Bool, true, false, not, ◌&&◌, Option, none, some, List, [], ◌∷◌, ◌++◌, ◌==◌,
  if◌then◌else◌, is_empty,
}
use mpp_rs.Prelude.Results.{Result, err, ok, ◌>>=◌, ◌>>◌, ok_or, err_if, map_err}
use mpp_rs.Error.{VerificationError, new, network_error, pending, transaction_failed}
use mpp_rs.Transfers.{Transfer, Parsers}
use mpp_rs.Charge.Json.{Value, boolean, get_from}
use mpp_rs.Charge.Request.{ChargeRequest}
use mpp_rs.Charge.Tempo.{TempoMethodDetails, get_request_transfers}
use mpp_rs.Server.Types.{Receipt}
use mpp_rs.Store.Memory.{Json, MemoryStore, put_if_absent}
use mpp_rs.Tempo.Attribution.{verify_server, verify_challenge_binding}
use mpp_rs.Tempo.Logs.{MatchedTransferLog, transfer, memo, LogParsers, text_of_value, and_then}
use mpp_rs.Tempo.Match.{ValidateSender, match_receipt_transfer_logs}
use mpp_rs.Tempo.Source.{parse_proof_source}

-- A receipt of the chain. `logs` is what its JSON has as an array, `none` if there is none.
pub record TxReceipt : Type 0 where
  pub status : Bool
  pub sender : ℕ
  pub logs : Option (List Value)

pub record Chain : Type 0 where
  pub log_parsers : LogParsers
  pub parsers : Parsers
  pub decode_details : Value → Option TempoMethodDetails
  pub keccak256 : Text → List ℕ
  pub format_b256 : ℕ → Text
  pub json : Json
  pub get_transaction_receipt : ℕ → Result (Unit {0}) (Option TxReceipt)
  pub now_iso8601 : Text

pub record ChargeMethod : Type 0 where
  pub store : Option MemoryStore
  pub validate_sender : ValidateSender

-- The memo of the method details; an empty one counts as none.
abbrev pub nonempty : Option Text → Option Text
nonempty none = none
nonempty (some s) = if is_empty s then none else some s

unfoldable pub charge_memo : ChargeRequest → Option Text
unfolding get_from
charge_memo charge =
    nonempty (and_then (get_from (codes "memo") charge.method_details) text_of_value)

abbrev pub or_sender : Option ℕ → ℕ → ℕ
or_sender none sender = sender
or_sender (some address) sender = address

abbrev pub unless_memo :
    Option Text → Result VerificationError (Unit {0}) → Result VerificationError (Unit {0})
unless_memo (some s) check = ok tt
unless_memo none check = check

-- The claim of a key, if there is a store.
abbrev pub claim_result : {E : Type 0} → Result E Bool → Result VerificationError (Unit {0})
claim_result (err e) = err new
claim_result (ok claimed) = err_if (not claimed) new

module _ (x : Chain) where
  unfoldable pub parse_hash_credential_source :
      Option Text → ℕ → Result VerificationError (Option ℕ)
  unfolding parse_proof_source
  parse_hash_credential_source none expected_chain_id = ok none
  parse_hash_credential_source (some source) expected_chain_id = do
    parsed ← ok_or (parse_proof_source x.log_parsers.parse_address source) new
    err_if (not (parsed.chain_id == expected_chain_id)) new
    ok (some parsed.address)

  unfoldable pub is_bound : Text → Text → List MatchedTransferLog → Bool
  unfolding verify_server verify_challenge_binding
  is_bound challenge_id realm [] = false
  is_bound challenge_id realm (transfer ∷ logs) = is_bound challenge_id realm logs
  is_bound challenge_id realm (memo bytes ∷ logs) =
      if verify_server x.keccak256 bytes realm
        && verify_challenge_binding x.keccak256 bytes challenge_id
      then true
      else is_bound challenge_id realm logs

  unfoldable pub assert_challenge_bound_memo :
      List MatchedTransferLog → Text → Text → Result VerificationError (Unit {0})
  unfolding is_bound
  assert_challenge_bound_memo logs challenge_id realm =
      err_if (not (is_bound challenge_id realm logs)) new

  unfoldable pub expected_transfers : ChargeRequest → Result VerificationError (List Transfer)
  unfolding get_request_transfers
  expected_transfers charge =
      map_err (λ _. new) (get_request_transfers x.parsers x.decode_details charge)

  unfoldable pub replay_key : ℕ → Text
  replay_key hash = codes "mpp:charge:" ++ x.format_b256 hash

  -- Everything before the hash is recorded; the hash itself.
  unfoldable pub checked_hash :
      ValidateSender
      → Text
      → ChargeRequest
      → Option Text
      → ℕ
      → Text
      → Text
      → Result VerificationError ℕ
  checked_hash validate_sender tx_hash charge source expected_chain_id challenge_id realm = do
    source_address ← parse_hash_credential_source source expected_chain_id
    hash ← ok_or (x.log_parsers.parse_b256 tx_hash) new
    answer ← map_err (λ _. network_error) (x.get_transaction_receipt hash)
    receipt ← ok_or answer pending
    err_if (not receipt.status) transaction_failed
    currency ← ok_or (x.parsers.parse_address charge.currency) new
    expected ← expected_transfers charge
    logs ← ok_or receipt.logs new
    matched_logs ←
        match_receipt_transfer_logs (or_sender source_address receipt.sender) currency source
          validate_sender x.log_parsers logs expected
    unless_memo (charge_memo charge) (assert_challenge_bound_memo matched_logs challenge_id realm)
    ok hash

  unfoldable pub reserve :
      Text → Option MemoryStore → Result VerificationError (Unit {0}) × Option MemoryStore
  unfolding put_if_absent
  reserve key none = (ok tt, none)
  reserve key (some store) =
      let (claimed, after) = put_if_absent x.json key (boolean true) store in
      (claim_result claimed, some after)

  abbrev pub success : Text → Receipt
  success reference = record {
    method = codes "tempo";
    timestamp = x.now_iso8601;
    reference = reference;
    external_id = none;
  }

  -- The record of the hash, and the receipt.
  unfoldable pub settle :
      Option MemoryStore
      → Text
      → Result VerificationError ℕ
      → Result VerificationError Receipt × Option MemoryStore
  unfolding replay_key
  settle store tx_hash (err e) = (err e, store)
  settle store tx_hash (ok hash) =
      let (reserved, after) = reserve (replay_key hash) store in
      ((reserved >>= λ _. ok (success tx_hash)), after)

  unfoldable pub verify_hash :
      ChargeMethod
      → Text
      → ChargeRequest
      → Option Text
      → ℕ
      → Text
      → Text
      → Result VerificationError Receipt × Option MemoryStore
  unfolding settle checked_hash
  verify_hash m tx_hash charge source expected_chain_id challenge_id realm =
      settle m.store tx_hash
        (checked_hash m.validate_sender tx_hash charge source expected_chain_id challenge_id realm)
