-- ===== src/Tempo/Match.antt =====
-- `match_receipt_transfer_logs` of src/protocol/methods/tempo/method.rs.
use mpp_rs.Prelude.{
  ℕ, Text, Bool, true, false, not, ◌&&◌, ◌||◌, Option, none, some, List, [], ◌∷◌, ◌++◌, map, ◌==◌,
  if◌then◌else◌, bytes_eq,
}
use mpp_rs.Prelude.Results.{Result, ok, ◌>>=◌, ◌>>◌, ok_or, err_if}
use mpp_rs.Error.{VerificationError, new}
use mpp_rs.Transfers.{Transfer}
use mpp_rs.Charge.Json.{Value}
use mpp_rs.Tempo.Claims.{unused, claim}
use mpp_rs.Tempo.Logs.{
  MatchedTransferLog, ParsedTransferLog, log_memo, LogParsers, parse_receipt_transfer_log,
}

-- The callback's answer for the expected sender, the sender and the source, if there is a callback.
abbrev pub ValidateSender : Type 0
ValidateSender = Option (ℕ → ℕ → Option Text → Bool)

unfoldable pub sender_is_allowed : ValidateSender → ℕ → ℕ → Option Text → Bool
sender_is_allowed validate_sender expected_sender sender source =
    sender == expected_sender
    || elim validate_sender [ none ↦ false | some cb ↦ cb expected_sender sender source ]

abbrev pub has_memo : Option (List ℕ) → Bool
has_memo none = false
has_memo (some bytes) = true

-- The memo that is asked for, or the kind of log that is preferred.
abbrev pub memo_fits : Option (List ℕ) → Option (List ℕ) → Bool → Bool
memo_fits (some expected) (some got) prefer_memo = bytes_eq got expected
memo_fits (some expected) none prefer_memo = false
memo_fits none got true = has_memo got
memo_fits none got false = not (has_memo got)

-- `sort_by_key` keeps the order within a key.
abbrev pub keep_memo : Bool → List Transfer → List Transfer
keep_memo wanted [] = []
keep_memo true (t ∷ ts) = if has_memo t.memo then t ∷ keep_memo true ts else keep_memo true ts
keep_memo false (t ∷ ts) = if has_memo t.memo then keep_memo false ts else t ∷ keep_memo false ts

abbrev pub memo_first : List Transfer → List Transfer
memo_first ts = keep_memo true ts ++ keep_memo false ts

abbrev pub Slots : Type 0
Slots = List (Bool × Option ParsedTransferLog)

abbrev or_else :
    Option (MatchedTransferLog × Slots)
    → Option (MatchedTransferLog × Slots)
    → Option (MatchedTransferLog × Slots)
or_else none other = other
or_else (some found) other = some found

module _ (expected_sender currency : ℕ) (source : Option Text)
    (validate_sender : ValidateSender) where
  unfoldable pub log_fits : Bool → Transfer → ParsedTransferLog → Bool
  unfolding sender_is_allowed
  log_fits prefer_memo t log =
      log.address == currency
      && (log.recipient == t.recipient
          && (log.amount == t.amount
              && (memo_fits t.memo (log_memo log) prefer_memo
                  && sender_is_allowed validate_sender expected_sender log.sender source)))

  unfoldable pub log_test : Bool → Transfer → Option ParsedTransferLog → Option MatchedTransferLog
  unfolding log_fits
  log_test prefer_memo t none = none
  log_test prefer_memo t (some log) = if log_fits prefer_memo t log then some log.matched else none

  unfoldable pub find_log : Transfer → Slots → Option (MatchedTransferLog × Slots)
  unfolding log_test claim
  find_log t slots =
      if has_memo t.memo
      then claim (log_test true t) slots
      else or_else (claim (log_test true t) slots) (claim (log_test false t) slots)

  -- The loop over the expected transfers.
  unfoldable pub match_transfers :
      List Transfer → Slots → Result VerificationError (List MatchedTransferLog × Slots)
  unfolding find_log
  match_transfers [] slots = ok ([], slots)
  match_transfers (t ∷ ts) slots = do
    err_if (t.amount == 0) new
    err_if (t.recipient == 0) new
    (matched, slots') ← ok_or (find_log t slots) new
    (matched_logs, end) ← match_transfers ts slots'
    ok (matched ∷ matched_logs, end)

  unfoldable pub match_receipt_transfer_logs :
      LogParsers → List Value → List Transfer → Result VerificationError (List MatchedTransferLog)
  unfolding match_transfers parse_receipt_transfer_log
  match_receipt_transfer_logs p logs expected =
      match_transfers (memo_first expected) (unused (map (parse_receipt_transfer_log p) logs))
      >>= λ r. ok r.0
