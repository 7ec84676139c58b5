-- ===== src/Tempo/Calls.antt =====
-- The calls of a signed transaction, in src/protocol/methods/tempo/method.rs: which of them are
-- transfers, what a sponsor of fees allows, and their match with the expected transfers. The decoders
-- and the selectors of the contracts are parameters.
use mpp_rs.Prelude.{
  ℕ, Bool, true, false, not, ◌&&◌, ◌||◌, Option, none, some, List, [], ◌∷◌, take, drop, length, ltb,
  ◌==◌, if◌then◌else◌, bytes_eq,
}
use mpp_rs.Prelude.Results.{Result, err, ok, ◌>>=◌, ◌>>◌, ok_or, err_if}
use mpp_rs.Error.{VerificationError, new}
use mpp_rs.Voucher.{be_number}
use mpp_rs.Transfers.{Transfer}
use mpp_rs.Tempo.Claims.{unused, claim}
use mpp_rs.Tempo.Match.{memo_first}
use mpp_rs.Tempo.Policy.{FeePayerPolicyOverride, resolve}

-- A call; `target` is `none` for a creation.
pub record Call : Type 0 where
  pub target : Option ℕ
  pub input : List ℕ

pub record DecodedTransaction : Type 0 where
  pub chain_id : ℕ
  pub gas_limit : ℕ
  pub calls : List Call

pub record Contracts : Type 0 where
  pub approve_selector : List ℕ
  pub swap_selector : List ℕ
  pub decode_swap_token_in : List ℕ → Option ℕ
  pub stablecoin_dex_address : ℕ
  pub tempo_tx_type_id : ℕ
  pub rlp_decode : List ℕ → Option DecodedTransaction

abbrev pub transfer_selector : List ℕ
transfer_selector = 0xa9 ∷ 0x05 ∷ 0x9c ∷ 0xbb ∷ []

abbrev pub transfer_with_memo_selector : List ℕ
transfer_with_memo_selector = 0x95 ∷ 0x77 ∷ 0x7d ∷ 0x59 ∷ []

unfoldable pub call_selector : List ℕ → Option (List ℕ)
call_selector input = if ltb (length input) 4 then none else some (take 4 input)

unfoldable pub has_selector : List ℕ → Call → Bool
unfolding call_selector
has_selector selector call = elim (call_selector call.input) [
  | none ↦ false
  | some s ↦ bytes_eq s selector
]

abbrev pub starts_with_selector : List ℕ → List Call → Bool
unfolding has_selector
starts_with_selector selector [] = false
starts_with_selector selector (call ∷ calls) = has_selector selector call

-- Some calls, each a transfer with or without a memo.
unfoldable pub are_transfers : List Call → Bool
unfolding has_selector
are_transfers [] = true
are_transfers (call ∷ calls) =
    (has_selector transfer_selector call || has_selector transfer_with_memo_selector call)
    && are_transfers calls

abbrev pub has_none : List Call → Bool
has_none [] = true
has_none (call ∷ calls) = false

unfoldable pub call_recipient : Call → ℕ
unfolding be_number
call_recipient call = be_number 0 (take 20 (drop 16 call.input))

unfoldable pub call_amount : Call → ℕ
unfolding be_number
call_amount call = be_number 0 (take 32 (drop 36 call.input))

abbrev pub is_target : ℕ → Option ℕ → Bool
is_target address none = false
is_target address (some to) = to == address

-- The layout of a call that a transfer with this memo, or with none, may have.
abbrev pub layout_fits : Option (List ℕ) → Call → Bool
layout_fits (some expected) call =
    has_selector transfer_with_memo_selector call
    && (length call.input == 100 && bytes_eq (take 32 (drop 68 call.input)) expected)
layout_fits none call =
    (has_selector transfer_selector call && length call.input == 68)
    || (has_selector transfer_with_memo_selector call && length call.input == 100)

unfoldable pub call_fits : ℕ → Transfer → Call → Bool
unfolding call_recipient call_amount has_selector
call_fits currency t call =
    is_target currency call.target
    && (call_recipient call == t.recipient
        && (call_amount call == t.amount && layout_fits t.memo call))

abbrev pub call_test : ℕ → Transfer → Call → Option (Unit {0})
call_test currency t call = if call_fits currency t call then some tt else none

-- The loop over the expected transfers.
unfoldable pub match_calls :
    ℕ → List Transfer → List (Bool × Call) → Result VerificationError (List (Bool × Call))
unfolding claim call_fits
match_calls currency [] slots = ok slots
match_calls currency (t ∷ ts) slots = do
  err_if (t.amount == 0) new
  err_if (t.recipient == 0) new
  (_, slots') ← ok_or (claim (call_test currency t) slots) new
  match_calls currency ts slots'

unfoldable pub all_used : List (Bool × Call) → Bool
all_used [] = true
all_used ((used, call) ∷ slots) = used && all_used slots

abbrev pub when : Bool → Result VerificationError (Unit {0}) → Result VerificationError (Unit {0})
when true check = check
when false check = ok tt

module _ (x : Contracts) where
  unfoldable pub transfer_call_offset : List Call → Result VerificationError ℕ
  transfer_call_offset calls =
      if starts_with_selector x.approve_selector calls
      then (if starts_with_selector x.swap_selector (drop 1 calls) then ok 2 else err new)
      else if starts_with_selector x.swap_selector calls
      then err new
      else ok 0

  unfoldable pub get_transfer_calls : List Call → Result VerificationError (List Call)
  unfolding transfer_call_offset are_transfers
  get_transfer_calls calls = do
    offset ← transfer_call_offset calls
    err_if (has_none (drop offset calls) || not (are_transfers (drop offset calls))) new
    ok (drop offset calls)

  unfoldable pub decode_approve_spender : Call → Option ℕ
  unfolding has_selector be_number
  decode_approve_spender call =
      if has_selector x.approve_selector call && length call.input == 68
      then some (be_number 0 (take 20 (drop 16 call.input)))
      else none

  unfoldable pub swap_token_in : Call → Option ℕ
  unfolding has_selector
  swap_token_in call =
      if has_selector x.swap_selector call then x.decode_swap_token_in (drop 4 call.input) else none

  -- The approval and the swap before the transfers.
  unfoldable pub validate_swap_prefix : List Call → Result VerificationError (Unit {0})
  unfolding decode_approve_spender swap_token_in
  validate_swap_prefix (approve ∷ swap ∷ calls) = do
    approve_target ← ok_or approve.target new
    token_in ← ok_or (swap_token_in swap) new
    err_if (not (approve_target == token_in)) new
    approve_spender ← ok_or (decode_approve_spender approve) new
    err_if (not (approve_spender == x.stablecoin_dex_address)) new
    err_if (not (is_target x.stablecoin_dex_address swap.target)) new
  validate_swap_prefix _ = err new

  unfoldable pub validate_fee_payer_calls : List Call → Result VerificationError (Unit {0})
  unfolding are_transfers validate_swap_prefix
  validate_fee_payer_calls calls =
      let has_swap_prefix = starts_with_selector x.approve_selector calls in
      let transfer_calls = drop (if has_swap_prefix then 2 else 0) calls in
      do
        err_if (has_none calls) new
        err_if
            (if has_swap_prefix
              then not (starts_with_selector x.swap_selector (drop 1 calls))
              else starts_with_selector x.swap_selector calls)
            new
        err_if
            (has_none transfer_calls
              || (ltb 11 (length transfer_calls) || not (are_transfers transfer_calls)))
            new
        when has_swap_prefix (validate_swap_prefix calls)

  abbrev pub strip_tx_type : List ℕ → List ℕ
  strip_tx_type [] = []
  strip_tx_type (b ∷ bytes) = if b == x.tempo_tx_type_id then bytes else b ∷ bytes

  unfoldable pub validate_transaction_transfers :
      Option FeePayerPolicyOverride
      → List ℕ
      → ℕ
      → List Transfer
      → ℕ
      → Bool
      → Result VerificationError (Unit {0})
  unfolding get_transfer_calls validate_fee_payer_calls match_calls all_used resolve
  validate_transaction_transfers overrides tx_bytes currency expected expected_chain_id
        require_exact_calls =
      do
        err_if (currency == 0) new
        tx ← ok_or (x.rlp_decode (strip_tx_type tx_bytes)) new
        err_if (not (tx.chain_id == expected_chain_id)) new
        err_if
            (require_exact_calls
              && ltb ((resolve expected_chain_id overrides).max_gas) tx.gas_limit)
            new
        transfer_calls ← get_transfer_calls tx.calls
        when require_exact_calls (validate_fee_payer_calls tx.calls)
        err_if (require_exact_calls && not (length transfer_calls == length expected)) new
        slots ← match_calls currency (memo_first expected) (unused transfer_calls)
        err_if (require_exact_calls && not (all_used slots)) new
