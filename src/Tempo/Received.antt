-- ===== src/Tempo/Received.antt =====
-- What the receipt of a broadcast shows, in src/protocol/methods/tempo/method.rs.
use mpp_rs.Prelude.{ℕ, Text, true, not, none, some, List, ◌≡◌}
use mathlib.Core.Path.{subst}
use mpp_rs.Prelude.Results.{ok, bind-ok, err_if-ok, ok_or-ok, ok-injective}
use mpp_rs.Error.{new, network_error, transaction_failed}
use mpp_rs.Charge.Json.{Value}
use mpp_rs.Charge.Request.{ChargeRequest}
use mpp_rs.Tempo.Match.{match_receipt_transfer_logs}
use mpp_rs.Tempo.Logs.{MatchedTransferLog}
use mpp_rs.Tempo.Hash.{TxReceipt, charge_memo, is_bound, unless_memo, assert_challenge_bound_memo}
use mpp_rs.Tempo.HashPaid.{unless_status, bound_if}
use mpp_rs.Tempo.Paid.{IsPaid, match_receipt_transfer_logs-IsPaid}
use mpp_rs.Tempo.Broadcast.{Node, Submission, checked_broadcast}

module _ (n : Node) where
  -- The receipt of what was sent shows the transfers of the plan.
  pub record IsReceived (s : Submission) (charge : ChargeRequest) (challenge_id realm : Text)
      (hash : ℕ) : Type 0 where
    pub receipt : TxReceipt
    pub sent : n.send_raw_transaction_sync s.final_tx_bytes ≡ some (receipt, hash)
    pub succeeded : receipt.status ≡ true
    pub logs : List Value
    pub has_logs : receipt.logs ≡ some logs
    pub paid : IsPaid n.chain.log_parsers receipt.sender s.currency none none logs s.expected
    pub matched : List MatchedTransferLog
    pub is_matched :
        match_receipt_transfer_logs receipt.sender s.currency none none n.chain.log_parsers logs
          s.expected
        ≡ ok matched
    pub bound : charge_memo charge ≡ none → is_bound n.chain challenge_id realm matched ≡ true

  pub checked_broadcast-IsReceived :
      (s : Submission) (charge : ChargeRequest) (challenge_id realm : Text) (hash : ℕ)
      → checked_broadcast n s charge challenge_id realm ≡ ok hash
      → IsReceived s charge challenge_id realm hash
  unfolding checked_broadcast
  checked_broadcast-IsReceived s charge challenge_id realm hash e =
      let ((receipt, got), sent, e₁) =
        ok_or-ok (n.send_raw_transaction_sync s.final_tx_bytes) network_error _ hash e in
      let (succeeded, e₂) = err_if-ok (not receipt.status) transaction_failed _ hash e₁ in
      let (logs, has_logs, e₃) = ok_or-ok receipt.logs new _ hash e₂ in
      let (matched, is_matched, e₄) =
        bind-ok
          (match_receipt_transfer_logs receipt.sender s.currency none none n.chain.log_parsers logs
            s.expected)
          _ hash e₃ in
      let (_, is_bound_memo, e₅) =
        bind-ok
          (unless_memo (charge_memo charge)
            (assert_challenge_bound_memo n.chain matched challenge_id realm))
          _ hash e₄ in
      subst (IsReceived s charge challenge_id realm) (ok-injective got hash e₅) (record {
        receipt = receipt;
        sent = sent;
        succeeded = unless_status receipt.status succeeded;
        logs = logs;
        has_logs = has_logs;
        paid =
            match_receipt_transfer_logs-IsPaid n.chain.log_parsers receipt.sender s.currency none
              none logs s.expected matched is_matched;
        matched = matched;
        is_matched = is_matched;
        bound = bound_if n.chain (charge_memo charge) matched challenge_id realm _ is_bound_memo;
      })
