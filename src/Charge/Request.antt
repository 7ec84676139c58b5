-- ===== src/Charge/Request.antt =====
-- src/protocol/intents/charge.rs: the request of a charge.
use mpp_rs.Prelude.{ℕ, Text, Option, none, some, ltb, parse_codes}
use mpp_rs.Prelude.Results.{Result, ok, ◌>>=◌, ok_or, err_if, map_err}
use mpp_rs.Amounts.{AmountError, UnitsError, parse_units}
use mpp_rs.Transfers.{TransferError}
use mpp_rs.Charge.Json.{Value}

-- The errors of src/error.rs that the creation of a challenge meets, without their texts.
pub data MppError : Type 0 where
  invalid_units : UnitsError → MppError
  invalid_dollars : AmountError → MppError
  invalid_transfers : TransferError → MppError
  invalid_amount : Text → MppError
  amount_exceeds_max : ℕ → ℕ → MppError
  invalid_config : MppError
  json : MppError

pub record ChargeRequest : Type 0 where
  pub amount : Text
  pub currency : Text
  pub decimals : Option ℕ
  pub recipient : Option Text
  pub description : Option Text
  pub external_id : Option Text
  pub method_details : Option Value

unfoldable pub with_base_units : ChargeRequest → Result MppError ChargeRequest
unfolding parse_units
with_base_units request = elim request.decimals [
  | none ↦ ok request
  | some decimals ↦ map_err invalid_units (parse_units request.amount decimals) >>= λ units.
      ok (record request { amount = units; decimals = none })
]

unfoldable pub parse_amount : ChargeRequest → Result MppError ℕ
unfolding parse_codes
parse_amount request = ok_or (parse_codes request.amount) (invalid_amount request.amount)

unfoldable pub validate_max_amount : ChargeRequest → Text → Result MppError (Unit {0})
unfolding parse_amount
validate_max_amount request max_amount = parse_amount request >>= λ amount.
    ok_or (parse_codes max_amount) (invalid_amount max_amount) >>= λ max.
    err_if (ltb max amount) (amount_exceeds_max amount max)
