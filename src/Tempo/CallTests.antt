-- ===== src/Tempo/CallTests.antt =====
-- A sponsored transaction with one transfer of 50 units, and the theorem on it.
use mpp_rs.Prelude.{ℕ, zero, suc, ◌≡◌, refl, true, none, some, List, [], ◌∷◌, ◌++◌, bytes_eq}
use mpp_rs.Prelude.Results.{ok, err}
use mpp_rs.Error.{new}
use mpp_rs.Voucher.{be_number}
use mpp_rs.Transfers.{Transfer}
use mpp_rs.Tempo.Claims.{claim}
use mpp_rs.Tempo.Policy.{resolve, get_by_chain_id, from_chain_id}
use mpp_rs.Tempo.Calls.{
  Call, Contracts, transfer_selector, call_selector, has_selector, are_transfers, call_recipient,
  call_amount, call_fits, match_calls, all_used, transfer_call_offset, get_transfer_calls,
  validate_swap_prefix, validate_fee_payer_calls, validate_transaction_transfers,
}
use mpp_rs.Tempo.CallsPaid.{IsPayment, validate_transaction_transfers-IsPayment}

unfoldable zeros : ℕ → List ℕ
zeros zero = []
zeros (suc n) = 0 ∷ zeros n

abbrev transfer_call : Call
unfolding zeros
transfer_call = record {
  target = some 8;
  input = transfer_selector ++ zeros 31 ++ (9 ∷ zeros 31) ++ (50 ∷ []);
}

abbrev contracts : List Call → Contracts
contracts calls = record {
  approve_selector = 1 ∷ 2 ∷ 3 ∷ 4 ∷ [];
  swap_selector = 5 ∷ 6 ∷ 7 ∷ 8 ∷ [];
  decode_swap_token_in = λ input. none;
  stablecoin_dex_address = 77;
  tempo_tx_type_id = 0x76;
  rlp_decode = λ bytes. some (record { chain_id = 4217; gas_limit = 100000; calls = calls });
}

abbrev plan : List Transfer
plan = record { amount = 50; recipient = 9; memo = none } ∷ []

payment-run :
    validate_transaction_transfers
      (contracts (transfer_call ∷ []))
      none
      (0x76 ∷ 0 ∷ [])
      8
      plan
      4217
      true
    ≡ ok tt
unfolding validate_transaction_transfers resolve get_by_chain_id from_chain_id get_transfer_calls
    transfer_call_offset are_transfers has_selector call_selector validate_fee_payer_calls
    validate_swap_prefix match_calls claim call_fits call_recipient call_amount be_number all_used
    bytes_eq zeros
payment-run = refl

-- A sponsored transaction with one transfer more is refused.
unexpected_call :
    validate_transaction_transfers
      (contracts (transfer_call ∷ transfer_call ∷ []))
      none
      (0x76 ∷ 0 ∷ [])
      8
      plan
      4217
      true
    ≡ err new
unfolding validate_transaction_transfers resolve get_by_chain_id from_chain_id get_transfer_calls
    transfer_call_offset are_transfers has_selector call_selector validate_fee_payer_calls
    validate_swap_prefix match_calls claim call_fits call_recipient call_amount be_number all_used
    bytes_eq zeros
unexpected_call = refl

validate_transaction_transfers-IsPayment_example :
    IsPayment (contracts (transfer_call ∷ [])) none (0x76 ∷ 0 ∷ []) 8 plan 4217 true
validate_transaction_transfers-IsPayment_example =
    validate_transaction_transfers-IsPayment (contracts (transfer_call ∷ [])) none (0x76 ∷ 0 ∷ []) 8
      plan 4217 true payment-run
