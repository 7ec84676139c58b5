-- ===== src/Error.antt =====
-- src/protocol/traits/mod.rs: the error of payment verification, its constructors and its codes. The text
-- of a message is not modelled, nor is the conversion to the problem types of src/error.rs.
mod Code
pub use Code.{ErrorCode}
unfoldable pub use Code.{as_str, spec_code}
use mpp_rs.Prelude.{Bool, true, false, Option, none, some}

pub record VerificationError : Type 0 where
  pub code : Option ErrorCode
  pub retryable : Bool

-- `VerificationError::new`, `with_code` and `retryable`.
abbrev pub new : VerificationError
new = record { code = none; retryable = false }

abbrev pub with_code : ErrorCode → VerificationError
with_code c = record { code = some c; retryable = false }

abbrev pub retry : VerificationError → VerificationError
retry e = record e { retryable = true }

abbrev pub expired : VerificationError
expired = with_code ErrorCode.expired

abbrev pub invalid_amount : VerificationError
invalid_amount = with_code ErrorCode.invalid_amount

abbrev pub invalid_recipient : VerificationError
invalid_recipient = with_code ErrorCode.invalid_recipient

abbrev pub not_found : VerificationError
not_found = with_code ErrorCode.not_found

abbrev pub chain_id_mismatch : VerificationError
chain_id_mismatch = with_code ErrorCode.chain_id_mismatch

abbrev pub pending : VerificationError
pending = retry (with_code ErrorCode.not_found)

abbrev pub network_error : VerificationError
network_error = retry (with_code ErrorCode.network_error)

abbrev pub transaction_failed : VerificationError
transaction_failed = with_code ErrorCode.transaction_failed

abbrev pub credential_mismatch : VerificationError
credential_mismatch = with_code ErrorCode.credential_mismatch

abbrev pub channel_not_found : VerificationError
channel_not_found = with_code ErrorCode.channel_not_found

abbrev pub channel_closed : VerificationError
channel_closed = with_code ErrorCode.channel_closed

abbrev pub insufficient_balance : VerificationError
insufficient_balance = with_code ErrorCode.insufficient_balance

abbrev pub invalid_payload : VerificationError
invalid_payload = with_code ErrorCode.invalid_payload

abbrev pub invalid_signature : VerificationError
invalid_signature = with_code ErrorCode.invalid_signature

abbrev pub amount_exceeds_deposit : VerificationError
amount_exceeds_deposit = with_code ErrorCode.amount_exceeds_deposit

abbrev pub delta_too_small : VerificationError
delta_too_small = with_code ErrorCode.delta_too_small

-- The result of a fallible call, and the chain of `?`.
pub data Result {ℓ} (A : Type ℓ) : Type ℓ where
  err : VerificationError → Result A
  ok : A → Result A

infixl 5 ◌>>=◌
abbrev pub ◌>>=◌ {ℓ ℓ'} : {A : Type ℓ} {B : Type ℓ'} → Result A → (A → Result B) → Result B
err e >>= next = err e
ok value >>= next = next value

abbrev pub ok_or {ℓ} : {A : Type ℓ} → Option A → VerificationError → Result A
ok_or (some value) error = ok value
ok_or none error = err error
