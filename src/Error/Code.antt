-- ===== src/Error/Code.antt =====
-- src/protocol/traits/mod.rs: the codes of an error, their names and the names that the specification
-- gives them.
use mpp_rs.Prelude.{String}

pub data ErrorCode : Type 0 where
  expired invalid_amount invalid_recipient transaction_failed not_found invalid_credential :
      ErrorCode
  network_error chain_id_mismatch credential_mismatch channel_not_found channel_closed : ErrorCode
  insufficient_balance invalid_payload invalid_signature amount_exceeds_deposit : ErrorCode
  delta_too_small : ErrorCode

unfoldable pub as_str : ErrorCode → String
as_str ErrorCode.expired = "expired"
as_str ErrorCode.invalid_amount = "invalid-amount"
as_str ErrorCode.invalid_recipient = "invalid-recipient"
as_str ErrorCode.transaction_failed = "transaction-failed"
as_str ErrorCode.not_found = "not-found"
as_str ErrorCode.invalid_credential = "invalid-credential"
as_str ErrorCode.network_error = "network-error"
as_str ErrorCode.chain_id_mismatch = "chain-id-mismatch"
as_str ErrorCode.credential_mismatch = "credential-mismatch"
as_str ErrorCode.channel_not_found = "channel-not-found"
as_str ErrorCode.channel_closed = "channel-closed"
as_str ErrorCode.insufficient_balance = "insufficient-balance"
as_str ErrorCode.invalid_payload = "invalid-payload"
as_str ErrorCode.invalid_signature = "invalid-signature"
as_str ErrorCode.amount_exceeds_deposit = "amount-exceeds-deposit"
as_str ErrorCode.delta_too_small = "delta-too-small"

unfoldable pub spec_code : ErrorCode → String
spec_code ErrorCode.expired = "payment-expired"
spec_code ErrorCode.invalid_amount = "payment-insufficient"
spec_code ErrorCode.invalid_credential = "malformed-credential"
spec_code ErrorCode.chain_id_mismatch = "method-unsupported"
spec_code ErrorCode.credential_mismatch = "malformed-credential"
spec_code ErrorCode.insufficient_balance = "payment-insufficient"
spec_code ErrorCode.invalid_payload = "malformed-credential"
spec_code _ = "verification-failed"
