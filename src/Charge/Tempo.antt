-- ===== src/Charge/Tempo.antt =====
-- The `TempoChargeExt` of src/protocol/methods/tempo/charge.rs, and `get_request_transfers` of
-- transfers.rs. What `serde` decodes of the method details is a parameter.
use mpp_rs.Prelude.{ℕ, Text, Bool, Option, none, some, List}
use mpp_rs.Prelude.Results.{Result, ok, ◌>>=◌, ok_or}
use mpp_rs.Transfers.{
  TransferError, invalid_challenge, invalid_address, invalid_amount, Split, Transfer, Parsers,
  parse_memo_bytes_in_context, get_transfers,
}
use mpp_rs.Charge.Json.{Value}
use mpp_rs.Charge.Request.{ChargeRequest}

pub record TempoMethodDetails : Type 0 where
  pub chain_id : Option ℕ
  pub fee_payer : Option Bool
  pub memo : Option Text
  pub splits : Option (List Split)

abbrev pub no_details : TempoMethodDetails
no_details = record { chain_id = none; fee_payer = none; memo = none; splits = none }

module _ (p : Parsers) (decode_details : Value → Option TempoMethodDetails) where
  unfoldable pub amount_u256 : ChargeRequest → Result TransferError ℕ
  amount_u256 charge = ok_or (p.parse_amount charge.amount) invalid_amount

  unfoldable pub recipient_address : ChargeRequest → Result TransferError ℕ
  recipient_address charge = ok_or charge.recipient invalid_challenge >>= λ recipient.
      ok_or (p.parse_address recipient) invalid_address

  unfoldable pub tempo_method_details : ChargeRequest → Result TransferError TempoMethodDetails
  tempo_method_details charge = elim charge.method_details [
    | some value ↦ ok_or (decode_details value) invalid_challenge
    | none ↦ ok no_details
  ]

  unfoldable pub get_request_transfers : ChargeRequest → Result TransferError (List Transfer)
  unfolding amount_u256 recipient_address tempo_method_details
  get_request_transfers charge = do
    recipient ← recipient_address charge
    amount ← amount_u256 charge
    details ← tempo_method_details charge
    memo ← parse_memo_bytes_in_context p details.memo
    get_transfers p amount recipient memo details.splits
