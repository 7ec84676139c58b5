-- ===== src/Tempo/Paid.antt =====
-- What matched logs have paid: `match_receipt_transfer_logs` of src/protocol/methods/tempo/method.rs.
use mpp_rs.Prelude.{
  ℕ, ◌+◌, Text, Bool, true, false, Option, none, some, List, [], ◌∷◌, ◌++◌, map, ◌==◌,
  if◌then◌else◌, ◌≡◌, refl, ap, ◌∙◌, arith, Bool-cases, Option-cases, inl, inr,
}
use mpp_rs.Prelude.Results.{Result, err, ok, bind-ok, err_if-ok, ok_or-ok}
use mpp_rs.Error.{VerificationError, new}
use mpp_rs.Transfers.{Transfer}
use mpp_rs.Charge.Json.{Value}
use mpp_rs.Tempo.Claims.{
  unused, items, claim, used_sum, UsedAll, claim-some, used_sum-unused, items-unused,
  UsedAll-unused,
}
use mpp_rs.Tempo.Logs.{
  MatchedTransferLog, ParsedTransferLog, LogParsers, parse_receipt_transfer_log,
}
use mpp_rs.Tempo.Match.{
  ValidateSender, sender_is_allowed, has_memo, keep_memo, memo_first, log_fits, log_test, Slots,
  find_log, match_transfers, match_receipt_transfer_logs,
}

-- What a log and a transfer bring to a recipient.
abbrev pub paid_to : ℕ → Option ParsedTransferLog → ℕ
paid_to r none = 0
paid_to r (some log) = if log.recipient == r then log.amount else 0

abbrev pub due_to : ℕ → List Transfer → ℕ
due_to r [] = 0
due_to r (t ∷ ts) = (if t.recipient == r then t.amount else 0) + due_to r ts

pub due_to-memo_first : (r : ℕ) (ts : List Transfer) → due_to r (memo_first ts) ≡ due_to r ts
due_to-memo_first r ts = due_to-append (keep_memo true ts) (keep_memo false ts) ∙ parts ts
  where
    due_to-append : (ss us : List Transfer) → due_to r (ss ++ us) ≡ due_to r ss + due_to r us
    due_to-append [] us = omega arith
    due_to-append (s ∷ ss) us = omega (arith, due_to-append ss us)

    parts :
        (us : List Transfer)
        → due_to r (keep_memo true us) + due_to r (keep_memo false us) ≡ due_to r us
    parts [] = omega arith
    parts (u ∷ us) = elim (Bool-cases (has_memo u.memo)) [
      | inl yes_memo ↦ rw yes_memo (omega (arith, parts us))
      | inr no_memo ↦ rw no_memo (omega (arith, parts us))
    ]

-- The slots of a result.
after_of : Result VerificationError (List MatchedTransferLog × Slots) → Slots → Slots
after_of (ok (ms, slots)) other = slots
after_of (err reason) other = other

module _ (expected_sender currency : ℕ) (source : Option Text)
    (validate_sender : ValidateSender) where
  -- A log of the currency from a sender that is expected or that the callback allows.
  abbrev pub IsOurs : Option ParsedTransferLog → Type 0
  IsOurs none = ⊥
  IsOurs (some log) =
      (log.address ≡ currency)
      × (sender_is_allowed validate_sender expected_sender log.sender source ≡ true)

  log_test-pays :
      (prefer : Bool) (t : Transfer) (o : Option ParsedTransferLog) (m : MatchedTransferLog)
      → log_test expected_sender currency source validate_sender prefer t o ≡ some m
      → IsOurs o × ((r : ℕ) → paid_to r o ≡ (if t.recipient == r then t.amount else 0))
  unfolding log_test log_fits
  log_test-pays prefer t none m e = cc
  log_test-pays prefer t (some log) m e =
      let address : log.address ≡ currency = ground arith in
      let recipient : log.recipient ≡ t.recipient = ground arith in
      let amount : log.amount ≡ t.amount = ground arith in
      ((address, ground arith), λ r. rw (recipient, amount))

  -- What one transfer, or several, have changed of the slots.
  abbrev Pays : List Transfer → Slots → Slots → Type 0
  Pays ts before after =
      (items after ≡ items before)
      × ((r : ℕ) → used_sum (paid_to r) after ≡ used_sum (paid_to r) before + due_to r ts)
      × (UsedAll IsOurs before → UsedAll IsOurs after)

  claim-Pays :
      (prefer : Bool) (t : Transfer) (before : Slots) (m : MatchedTransferLog) (after : Slots)
      → claim (log_test expected_sender currency source validate_sender prefer t) before
        ≡ some (m, after)
      → Pays (t ∷ []) before after
  claim-Pays prefer t before m after e =
      let (o, passes, same, sums, all) =
        claim-some (log_test expected_sender currency source validate_sender prefer t) before m
          after e in
      let (ours, pays) = log_test-pays prefer t o m passes in
      (same, λ r. omega (arith, sums (paid_to r), pays r), λ h. all IsOurs ours h)

  find_log-Pays :
      (t : Transfer) (before : Slots) (m : MatchedTransferLog) (after : Slots)
      → find_log expected_sender currency source validate_sender t before ≡ some (m, after)
      → Pays (t ∷ []) before after
  unfolding find_log
  find_log-Pays t before m after e = elim (Bool-cases (has_memo t.memo)) [
    | inl with_memo ↦ claim-Pays true t before m after (rw with_memo at e)
    | inr plain ↦
        elim (Option-cases
          (claim (log_test expected_sender currency source validate_sender true t) before)) [
            | inl none_left ↦ claim-Pays false t before m after (rw (plain, none_left) at e)
            | inr (found, is_found) ↦
                claim-Pays true t before m after (is_found ∙ (rw (plain, is_found) at e))
          ]
  ]

  match_transfers-Pays :
      (ts : List Transfer) (before : Slots) (ms : List MatchedTransferLog) (after : Slots)
      → match_transfers expected_sender currency source validate_sender ts before ≡ ok (ms, after)
      → Pays ts before after
  unfolding match_transfers after_of
  match_transfers-Pays [] before ms after e =
      let same : before ≡ after = ap (λ r. after_of r before) e in
      rw (← same) (refl, λ r. omega arith, λ h. h)
  match_transfers-Pays (t ∷ ts) before ms after e =
      let end : List MatchedTransferLog × Slots = (ms, after) in
      let (_, e₁) = err_if-ok (t.amount == 0) new _ end e in
      let (_, e₂) = err_if-ok (t.recipient == 0) new _ end e₁ in
      let ((m, middle), found, e₃) =
        ok_or-ok (find_log expected_sender currency source validate_sender t before) new _ end e₂ in
      let ((rest, last), matched, e₄) =
        bind-ok (match_transfers expected_sender currency source validate_sender ts middle) _ end
          e₃ in
      let same : last ≡ after = ap (λ r. after_of r last) e₄ in
      let (items₁, sums₁, ours₁) = find_log-Pays t before m middle found in
      let (items₂, sums₂, ours₂) = match_transfers-Pays ts middle rest last matched in
      rw (← same) (items₂ ∙ items₁, λ r. omega (arith, sums₁ r, sums₂ r), λ h. ours₂ (ours₁ h))

-- Logs of a receipt that pay the transfers of a plan, each log used at most once: among those in use,
-- all of the currency and from an allowed sender, every recipient gets what the plan gives it.
pub record IsPaid (p : LogParsers) (expected_sender currency : ℕ) (source : Option Text)
    (validate_sender : ValidateSender) (logs : List Value) (expected : List Transfer) : Type 0 where
  pub slots : Slots
  pub of_receipt : items slots ≡ map (parse_receipt_transfer_log p) logs
  pub ours : UsedAll (IsOurs expected_sender currency source validate_sender) slots
  pub totals : (r : ℕ) → used_sum (paid_to r) slots ≡ due_to r expected

-- When the logs of a receipt match, the transfers of the plan are paid: distinct logs of the currency,
-- from the expected sender or one that the callback allows, bring each recipient exactly what the plan
-- gives it.
pub match_receipt_transfer_logs-IsPaid :
    (p : LogParsers) (expected_sender currency : ℕ) (source : Option Text)
    (validate_sender : ValidateSender) (logs : List Value) (expected : List Transfer)
    (ms : List MatchedTransferLog)
    → match_receipt_transfer_logs expected_sender currency source validate_sender p logs expected
      ≡ ok ms
    → IsPaid p expected_sender currency source validate_sender logs expected
unfolding match_receipt_transfer_logs
match_receipt_transfer_logs-IsPaid p expected_sender currency source validate_sender logs expected
      ms e =
    let start : Slots = unused (map (parse_receipt_transfer_log p) logs) in
    let ((ms', slots), matched, _) =
      bind-ok
        (match_transfers expected_sender currency source validate_sender (memo_first expected)
          start)
        _ ms e in
    let (same, sums, ours) =
      match_transfers-Pays expected_sender currency source validate_sender (memo_first expected)
        start ms' slots matched in
    record {
      slots = slots;
      of_receipt = same ∙ items-unused (map (parse_receipt_transfer_log p) logs);
      ours = ours (
          UsedAll-unused (IsOurs expected_sender currency source validate_sender)
            (map (parse_receipt_transfer_log p) logs));
      totals = λ r.
          sums r
          ∙ omega (
            arith,
            used_sum-unused (paid_to r) (map (parse_receipt_transfer_log p) logs),
            due_to-memo_first r expected,
          );
    }
