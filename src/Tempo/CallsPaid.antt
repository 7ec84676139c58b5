-- ===== src/Tempo/CallsPaid.antt =====
-- What the calls of an accepted transaction pay: `validate_transaction_transfers` of
-- src/protocol/methods/tempo/method.rs.
use mpp_rs.Prelude.{
  ℕ, ◌+◌, ◌≤◌, Bool, true, false, not, ◌&&◌, Option, none, some, List, [], ◌∷◌, length, ltb, ◌==◌,
  if◌then◌else◌, ◌≡◌, refl, ap, sym, ◌∙◌, arith, both_true, ==_iff,
}
use mpp_rs.Prelude.Results.{Result, ok, bind-ok, err_if-ok, ok_or-ok, ok-injective, err_if}
use mpp_rs.Error.{VerificationError, new}
use mpp_rs.Transfers.{Transfer}
use mpp_rs.Tempo.Claims.{
  unused, items, claim, used_sum, UsedAll, claim-some, used_sum-unused, items-unused,
  UsedAll-unused,
}
use mpp_rs.Tempo.Match.{memo_first}
use mpp_rs.Tempo.Paid.{due_to, due_to-memo_first}
use mpp_rs.Tempo.Policy.{FeePayerPolicyOverride, resolve}
use mpp_rs.Tempo.Calls.{
  Call, DecodedTransaction, Contracts, call_recipient, call_amount, call_fits, call_test, is_target,
  match_calls, all_used, get_transfer_calls, validate_fee_payer_calls, when, strip_tx_type,
  validate_transaction_transfers,
}

-- What a call brings to a recipient, and what several bring.
abbrev pub call_pays : ℕ → Call → ℕ
unfolding call_recipient call_amount
call_pays r call = if call_recipient call == r then call_amount call else 0

abbrev pub calls_pay : ℕ → List Call → ℕ
calls_pay r [] = 0
calls_pay r (call ∷ calls) = call_pays r call + calls_pay r calls

abbrev Slots : Type 0
Slots = List (Bool × Call)

-- A call of the currency's contract.
abbrev pub IsOfCurrency : ℕ → Call → Type 0
IsOfCurrency currency call = is_target currency call.target ≡ true

fits : (b : Bool) → ◌≡◌ {A = Option (Unit {0})} (if b then some tt else none) (some tt) → b ≡ true
fits true h = refl
fits false h = cc

call_test-pays :
    (currency : ℕ) (t : Transfer) (call : Call)
    → call_test currency t call ≡ some tt
    → IsOfCurrency currency call
      × ((r : ℕ) → call_pays r call ≡ (if t.recipient == r then t.amount else 0))
unfolding call_fits
call_test-pays currency t call e =
    let (target, e₁) =
      both_true (is_target currency call.target) _ (fits (call_fits currency t call) e) in
    let (recipient, e₂) = both_true (call_recipient call == t.recipient) _ e₁ in
    let (amount, _) = both_true (call_amount call == t.amount) _ e₂ in
    (target, λ r. rw ((==_iff _ _).0 recipient, (==_iff _ _).0 amount) refl)

-- What some transfers have changed of the slots.
abbrev Pays : ℕ → List Transfer → Slots → Slots → Type 0
Pays currency ts before after =
    (items after ≡ items before)
    × ((r : ℕ) → used_sum (call_pays r) after ≡ used_sum (call_pays r) before + due_to r ts)
    × (UsedAll (IsOfCurrency currency) before → UsedAll (IsOfCurrency currency) after)

claim-Pays :
    (currency : ℕ) (t : Transfer) (before : Slots) (after : Slots)
    → claim (call_test currency t) before ≡ some (tt, after)
    → Pays currency (t ∷ []) before after
claim-Pays currency t before after e =
    let (call, passes, same, sums, all) = claim-some (call_test currency t) before tt after e in
    let (ours, pays) = call_test-pays currency t call passes in
    (same, λ r. omega (arith, sums (call_pays r), pays r), λ h. all (IsOfCurrency currency) ours h)

match_calls-Pays :
    (currency : ℕ) (ts : List Transfer) (before after : Slots)
    → match_calls currency ts before ≡ ok after
    → Pays currency ts before after
unfolding match_calls
match_calls-Pays currency [] before after e =
    rw (← (ok-injective before after e)) (refl, λ r. omega arith, λ h. h)
match_calls-Pays currency (t ∷ ts) before after e =
    let (_, e₁) = err_if-ok (t.amount == 0) new _ after e in
    let (_, e₂) = err_if-ok (t.recipient == 0) new _ after e₁ in
    let ((_, middle), found, e₃) = ok_or-ok (claim (call_test currency t) before) new _ after e₂ in
    let (items₁, sums₁, ours₁) = claim-Pays currency t before middle found in
    let (items₂, sums₂, ours₂) = match_calls-Pays currency ts middle after e₃ in
    (items₂ ∙ items₁, λ r. omega (arith, sums₁ r, sums₂ r), λ h. ours₂ (ours₁ h))

-- When every slot is in use, the sum is that of all items.
used_sum-all_used :
    (r : ℕ) (slots : Slots)
    → all_used slots ≡ true
    → used_sum (call_pays r) slots ≡ calls_pay r (items slots)
unfolding all_used
used_sum-all_used r [] e = refl
used_sum-all_used r ((true, call) ∷ slots) e = omega (arith, used_sum-all_used r slots e)
used_sum-all_used r ((false, call) ∷ slots) e = cc

-- A transaction on the chain whose calls of the currency pay the plan, each at most once; for one
-- with a sponsor they are all its transfers, within the gas that the policy allows.
pub record IsPayment (x : Contracts) (overrides : Option FeePayerPolicyOverride) (tx_bytes : List ℕ)
    (currency : ℕ) (expected : List Transfer) (expected_chain_id : ℕ) (require_exact_calls : Bool)
    : Type 0 where
  pub tx : DecodedTransaction
  pub decoded : x.rlp_decode (strip_tx_type x tx_bytes) ≡ some tx
  pub chain : tx.chain_id ≡ expected_chain_id
  pub calls : List Call
  pub are_its_transfers : get_transfer_calls x tx.calls ≡ ok calls
  pub slots : List (Bool × Call)
  pub of_calls : items slots ≡ calls
  pub ours : UsedAll (IsOfCurrency currency) slots
  pub totals : (r : ℕ) → used_sum (call_pays r) slots ≡ due_to r expected
  pub exact :
      require_exact_calls ≡ true
      → (tx.gas_limit ≤ (resolve expected_chain_id overrides).max_gas)
        × (validate_fee_payer_calls x tx.calls ≡ ok tt)
        × (length calls ≡ length expected)
        × ((r : ℕ) → calls_pay r calls ≡ due_to r expected)

-- What a condition under a flag says when the flag is set.
unflagged : (flag b : Bool) → (flag && not b) ≡ false → flag ≡ true → b ≡ true
unflagged true true h on = refl
unflagged true false h on = cc
unflagged false b h on = cc

bounded : (flag : Bool) (n m : ℕ) → (flag && ltb m n) ≡ false → flag ≡ true → n ≤ m
bounded true n m h on = ground arith
bounded false n m h on = cc

when-ok :
    (flag : Bool) (check : Result VerificationError (Unit {0}))
    → when flag check ≡ ok tt
    → flag ≡ true
    → check ≡ ok tt
when-ok true check h on = h
when-ok false check h on = cc

pub unflag : (b : Bool) → err_if b new ≡ ok tt → b ≡ false
unflag true h = cc
unflag false h = refl

pub not-false : (b : Bool) → not b ≡ false → b ≡ true
not-false true h = refl
not-false false h = cc

-- When the check of a signed transaction accepts it, its transfers pay the plan: distinct calls of the
-- currency's contract bring each recipient exactly what the plan gives it. With a sponsor of fees the
-- transaction has no other transfers, its calls have the allowed pattern, and its gas is within the
-- policy's limit.
pub validate_transaction_transfers-IsPayment :
    (x : Contracts) (overrides : Option FeePayerPolicyOverride) (tx_bytes : List ℕ) (currency : ℕ)
    (expected : List Transfer) (expected_chain_id : ℕ) (require_exact_calls : Bool)
    → validate_transaction_transfers x overrides tx_bytes currency expected expected_chain_id
        require_exact_calls
      ≡ ok tt
    → IsPayment x overrides tx_bytes currency expected expected_chain_id require_exact_calls
unfolding validate_transaction_transfers
validate_transaction_transfers-IsPayment x overrides tx_bytes currency expected expected_chain_id
      exact e =
    let (_, e₁) = err_if-ok (currency == 0) new _ tt e in
    let (tx, decoded, e₂) = ok_or-ok (x.rlp_decode (strip_tx_type x tx_bytes)) new _ tt e₁ in
    let (same_chain, e₃) = err_if-ok (not (tx.chain_id == expected_chain_id)) new _ tt e₂ in
    let max_gas : ℕ = (resolve expected_chain_id overrides).max_gas in
    let (gas, e₄) = err_if-ok (exact && ltb max_gas tx.gas_limit) new _ tt e₃ in
    let (calls, got, e₅) = bind-ok (get_transfer_calls x tx.calls) _ tt e₄ in
    let (_, allowed, e₆) = bind-ok (when exact (validate_fee_payer_calls x tx.calls)) _ tt e₅ in
    let (counted, e₇) = err_if-ok (exact && not (length calls == length expected)) new _ tt e₆ in
    let start : Slots = unused calls in
    let (slots, matched, last) =
      bind-ok (match_calls currency (memo_first expected) start) _ tt e₇ in
    let (same, sums, ours) = match_calls-Pays currency (memo_first expected) start slots matched in
    let of_calls : items slots ≡ calls = same ∙ items-unused calls in
    let totals : ((r : ℕ) → used_sum (call_pays r) slots ≡ due_to r expected) = λ r.
      omega (arith, sums r, used_sum-unused (call_pays r) calls, due_to-memo_first r expected) in
    record {
      tx = tx;
      decoded = decoded;
      chain = (==_iff _ _).0 (not-false _ same_chain);
      calls = calls;
      are_its_transfers = got;
      slots = slots;
      of_calls = of_calls;
      ours = ours (UsedAll-unused (IsOfCurrency currency) calls);
      totals = totals;
      exact = λ on. (
        bounded exact tx.gas_limit max_gas gas on,
        when-ok exact (validate_fee_payer_calls x tx.calls) allowed on,
        (==_iff _ _).0 (unflagged exact _ counted on),
        λ r.
            ap (calls_pay r) (sym of_calls)
            ∙ sym (used_sum-all_used r slots (unflagged exact (all_used slots) (unflag _ last) on))
            ∙ totals r,
      );
    }
