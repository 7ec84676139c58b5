-- ===== src/Tempo/HashPaid.antt =====
-- What a hash credential that `verify_hash` of src/protocol/methods/tempo/method.rs takes has paid.
use mpp_rs.Prelude.{
  ℕ, Text, Bool, true, false, not, Option, none, some, List, ◌≡◌, refl, sym, ap, ◌∙◌, arith, ◌==◌,
  ==_iff,
}
use mpp_rs.Prelude.Results.{
  Result, err, ok, ◌>>=◌, err_if, map_err, bind-ok, ok_or-ok, err_if-ok, map_err-ok, ok-injective,
}
use mpp_rs.Error.{VerificationError, new, network_error, pending, transaction_failed}
use mpp_rs.Transfers.{Transfer}
use mpp_rs.Charge.Json.{Value, boolean}
use mpp_rs.Charge.Request.{ChargeRequest}
use mpp_rs.Charge.Tempo.{get_request_transfers}
use mpp_rs.Server.Types.{Receipt}
use mpp_rs.Store.Memory.{StoreError, MemoryStore, put_if_absent}
use mpp_rs.Tempo.Source.{ProofSource, parse_proof_source}
use mpp_rs.Tempo.Logs.{MatchedTransferLog}
use mpp_rs.Tempo.Match.{ValidateSender, match_receipt_transfer_logs}
use mpp_rs.Tempo.Paid.{IsPaid, match_receipt_transfer_logs-IsPaid}
use mpp_rs.Tempo.Hash.{
  TxReceipt, Chain, ChargeMethod, charge_memo, or_sender, parse_hash_credential_source, is_bound,
  assert_challenge_bound_memo, expected_transfers, replay_key, checked_hash, claim_result,
  unless_memo, reserve, success, settle, verify_hash,
}

-- Whom the logs are from: the receipt's sender, or the payer that the credential's source names on the
-- expected chain.
abbrev pub IsSender : Chain → Option Text → ℕ → TxReceipt → ℕ → Type 0
IsSender x none expected_chain_id receipt sender = sender ≡ receipt.sender
IsSender x (some source) expected_chain_id receipt sender =
    (parsed : ProofSource) × (parse_proof_source x.log_parsers.parse_address source ≡ some parsed)
    × (parsed.chain_id ≡ expected_chain_id)
    × (sender ≡ parsed.address)

-- A transaction of the chain that succeeded and whose logs pay the transfers of the request; without a
-- memo of the request, one of the matched memos names the realm and the challenge.
pub record IsPaidHash (x : Chain) (validate_sender : ValidateSender) (tx_hash : Text)
    (charge : ChargeRequest) (source : Option Text) (expected_chain_id : ℕ)
    (challenge_id realm : Text) (hash : ℕ) : Type 0 where
  pub receipt : TxReceipt
  pub logs : List Value
  pub sender : ℕ
  pub is_sender : IsSender x source expected_chain_id receipt sender
  pub currency : ℕ
  pub expected : List Transfer
  pub matched : List MatchedTransferLog
  pub parsed : x.log_parsers.parse_b256 tx_hash ≡ some hash
  pub mined : x.get_transaction_receipt hash ≡ ok (some receipt)
  pub succeeded : receipt.status ≡ true
  pub has_logs : receipt.logs ≡ some logs
  pub is_currency : x.parsers.parse_address charge.currency ≡ some currency
  pub is_plan : get_request_transfers x.parsers x.decode_details charge ≡ ok expected
  pub is_matched :
      match_receipt_transfer_logs sender currency source validate_sender x.log_parsers logs expected
      ≡ ok matched
  pub paid : IsPaid x.log_parsers sender currency source validate_sender logs expected
  pub bound : charge_memo charge ≡ none → is_bound x challenge_id realm matched ≡ true

pub unless_status : (b : Bool) → not b ≡ false → b ≡ true
unless_status b e = ground arith

module _ (x : Chain) where
  pub bound_if :
      (wanted : Option Text) (matched : List MatchedTransferLog) (challenge_id realm : Text)
      (u : Unit {0})
      → unless_memo wanted (assert_challenge_bound_memo x matched challenge_id realm) ≡ ok u
      → wanted ≡ none
      → is_bound x challenge_id realm matched ≡ true
  unfolding assert_challenge_bound_memo
  bound_if wanted matched challenge_id realm u e h =
      unless_status (is_bound x challenge_id realm matched)
        (refused (not (is_bound x challenge_id realm matched)) (rw h at e))
    where
      refused : (b : Bool) → err_if b new ≡ ok u → b ≡ false
      refused b h = ground arith

  parse_hash_credential_source-IsSender :
      (source : Option Text) (expected_chain_id : ℕ) (address : Option ℕ) (receipt : TxReceipt)
      → parse_hash_credential_source x source expected_chain_id ≡ ok address
      → IsSender x source expected_chain_id receipt (or_sender address receipt.sender)
  unfolding parse_hash_credential_source
  parse_hash_credential_source-IsSender none expected_chain_id address receipt e =
      ap (λ o. or_sender o receipt.sender) (sym (ok-injective none address e))
  parse_hash_credential_source-IsSender (some source) expected_chain_id address receipt e =
      let (parsed, is_parsed, e₁) =
        ok_or-ok (parse_proof_source x.log_parsers.parse_address source) new _ address e in
      let (same_chain, e₂) =
        err_if-ok (not (parsed.chain_id == expected_chain_id)) new _ address e₁ in
      (
        parsed,
        is_parsed,
        (==_iff _ _).0 (unless_status _ same_chain),
        ap (λ o. or_sender o receipt.sender) (sym (ok-injective (some parsed.address) address e₂)),
      )

  mined_at :
      {got hash : ℕ} {answer : Option TxReceipt} {receipt : TxReceipt}
      → got ≡ hash
      → map_err (λ _. network_error) (x.get_transaction_receipt got) ≡ ok answer
      → answer ≡ some receipt
      → map_err (λ _. network_error) (x.get_transaction_receipt hash) ≡ ok (some receipt)
  mined_at same answered is_receipt = rw (← same) (answered ∙ ap ok is_receipt)

  pub checked_hash-IsPaidHash :
      (validate_sender : ValidateSender) (tx_hash : Text) (charge : ChargeRequest)
      (source : Option Text) (expected_chain_id : ℕ) (challenge_id realm : Text) (hash : ℕ)
      → checked_hash x validate_sender tx_hash charge source expected_chain_id challenge_id realm
        ≡ ok hash
      → IsPaidHash x validate_sender tx_hash charge source expected_chain_id challenge_id realm hash
  unfolding checked_hash expected_transfers
  checked_hash-IsPaidHash validate_sender tx_hash charge source expected_chain_id challenge_id realm
        hash e =
      let (address, is_address, e₁) =
        bind-ok (parse_hash_credential_source x source expected_chain_id) _ hash e in
      let (got, parsed, e₂) = ok_or-ok (x.log_parsers.parse_b256 tx_hash) new _ hash e₁ in
      let (answer, answered, e₃) =
        bind-ok (map_err (λ _. network_error) (x.get_transaction_receipt got)) _ hash e₂ in
      let (receipt, is_receipt, e₄) = ok_or-ok answer pending _ hash e₃ in
      let (succeeded, e₅) = err_if-ok (not receipt.status) transaction_failed _ hash e₄ in
      let (currency, is_currency, e₆) =
        ok_or-ok (x.parsers.parse_address charge.currency) new _ hash e₅ in
      let (expected, is_expected, e₇) = bind-ok (expected_transfers x charge) _ hash e₆ in
      let (logs, has_logs, e₈) = ok_or-ok receipt.logs new _ hash e₇ in
      let (matched, is_matched, e₉) =
        bind-ok
          (match_receipt_transfer_logs (or_sender address receipt.sender) currency source
            validate_sender x.log_parsers logs expected)
          _ hash e₈ in
      let (_, is_bound_memo, e₁₀) =
        bind-ok
          (unless_memo (charge_memo charge)
            (assert_challenge_bound_memo x matched challenge_id realm))
          _ hash e₉ in
      let same : got ≡ hash = ok-injective got hash e₁₀ in
      record {
        receipt = receipt;
        logs = logs;
        sender = or_sender address receipt.sender;
        is_sender =
            parse_hash_credential_source-IsSender source expected_chain_id address receipt
              is_address;
        currency = currency;
        expected = expected;
        matched = matched;
        parsed = rw (← same) parsed;
        mined =
            map_err-ok (λ _. network_error) (x.get_transaction_receipt hash) (some receipt)
              (mined_at same answered is_receipt);
        succeeded = unless_status receipt.status succeeded;
        has_logs = has_logs;
        is_currency = is_currency;
        is_plan =
            map_err-ok (λ _. new) (get_request_transfers x.parsers x.decode_details charge) expected
              is_expected;
        is_matched = is_matched;
        paid =
            match_receipt_transfer_logs-IsPaid x.log_parsers (or_sender address receipt.sender)
              currency source validate_sender logs expected matched is_matched;
        bound = bound_if (charge_memo charge) matched challenge_id realm _ is_bound_memo;
      }

abbrev Answer : Type 0
Answer = Result VerificationError Receipt × Option MemoryStore

refused :
    {reason : VerificationError} {r : Receipt} {s t : Option MemoryStore}
    → ◌≡◌ {A = Answer} (err reason, s) (ok r, t)
    → ⊥
refused e = cc

claim_of :
    (p : Result StoreError Bool × MemoryStore) (receipt r : Receipt) (after : Option MemoryStore)
    → ◌≡◌ {A = Answer} ((claim_result p.0 >>= λ _. ok receipt), some p.1) (ok r, after)
    → (p ≡ (ok true, p.1)) × (after ≡ some p.1)
claim_of (err reason, end) receipt r after e = absurd (refused e)
claim_of (ok false, end) receipt r after e = absurd (refused e)
claim_of (ok true, end) receipt r after e = (refl, sym (ap (λ a. a.1) e))

reserve-some :
    (x : Chain) (key : Text) (before : MemoryStore) (receipt r : Receipt)
    (after : Option MemoryStore)
    → ◌≡◌ {A = Answer}
        (((reserve x key (some before)).0 >>= λ _. ok receipt), (reserve x key (some before)).1)
        (ok r, after)
    → (end : MemoryStore) × (put_if_absent x.json key (boolean true) before ≡ (ok true, end))
      × (after ≡ some end)
unfolding reserve
reserve-some x key before receipt r after e =
    let p = put_if_absent x.json key (boolean true) before in
    let (taken, kept) = claim_of p receipt r after e in (p.1, taken, kept)

-- What is recorded when the payment is taken.
pub settle-ok :
    (x : Chain) (store : Option MemoryStore) (tx_hash : Text) (c : Result VerificationError ℕ)
    (r : Receipt) (after : Option MemoryStore)
    → settle x store tx_hash c ≡ (ok r, after)
    → (hash : ℕ) × (c ≡ ok hash)
      × ((before : MemoryStore)
          → store ≡ some before
          → (end : MemoryStore) × (put_if_absent x.json (replay_key x hash) (boolean true) before
              ≡ (ok true, end))
            × (after ≡ some end))
unfolding settle
settle-ok x store tx_hash (err reason) r after e = absurd (refused e)
settle-ok x store tx_hash (ok hash) r after e = (
  hash,
  refl,
  λ before h. reserve-some x (replay_key x hash) before (success x tx_hash) r after (rw h at e),
)

module _ (x : Chain) (m : ChargeMethod) (tx_hash : Text) (charge : ChargeRequest)
    (source : Option Text) (expected_chain_id : ℕ) (challenge_id realm : Text) where
  -- A hash credential that is taken names a transaction that succeeded on the chain; logs of its
  -- receipt, each used once, all of the request's currency and from the payer that the credential names
  -- on the expected chain, from the receipt's sender if it names none, or from one that the callback allows, bring every recipient what the transfer plan of the request
  -- gives it; and without a memo of the request a matched memo names the realm and the challenge.
  pub verify_hash-IsPaidHash :
      (r : Receipt) (after : Option MemoryStore)
      → verify_hash x m tx_hash charge source expected_chain_id challenge_id realm ≡ (ok r, after)
      → (hash : ℕ) × IsPaidHash x m.validate_sender tx_hash charge source expected_chain_id
          challenge_id realm hash
  unfolding verify_hash
  verify_hash-IsPaidHash r after e =
      let (hash, checked, _) = settle-ok x m.store tx_hash _ r after e in
      (
        hash,
        checked_hash-IsPaidHash x m.validate_sender tx_hash charge source expected_chain_id
            challenge_id realm hash checked,
      )
