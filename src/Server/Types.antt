-- ===== src/Server/Types.antt =====
-- The data of src/server/mpp.rs and src/server/events.rs, and the traits of src/protocol/traits that a
-- server is built on: interfaces, which a payment method fills.
use mpp_rs.Prelude.{ℕ, Text, Bool, Option, List}
use mpp_rs.Prelude.Results.{Result}
use mpp_rs.Error.{VerificationError}
use mpp_rs.Transfers.{Parsers}
use mpp_rs.Charge.Json.{Value}
use mpp_rs.Charge.Request.{ChargeRequest}
use mpp_rs.Charge.Tempo.{TempoMethodDetails}
use mpp_rs.Server.Challenge.{ChallengeEcho}

pub record PaymentCredential : Type 0 where
  pub challenge : ChallengeEcho
  pub source : Option Text
  pub payload : Value

-- The status has one constructor.
pub record Receipt : Type 0 where
  pub method : Text
  pub timestamp : Text
  pub reference : Text
  pub external_id : Option Text

pub record SessionRequest : Type 0 where
  pub amount : Text
  pub unit_type : Option Text
  pub currency : Text
  pub decimals : Option ℕ
  pub recipient : Option Text
  pub suggested_deposit : Option Text
  pub method_details : Option Value

-- The traits. A method's answer is that of the moment of the call.
pub record ChargeMethod : Type 0 where
  pub method : Text
  pub verify : PaymentCredential → ChargeRequest → Result VerificationError Receipt

pub record SessionMethod : Type 0 where
  pub verify_session : PaymentCredential → SessionRequest → Result VerificationError Receipt
  pub challenge_method_details : Option Value
  pub respond : PaymentCredential → Receipt → Option Value

pub record Mpp : Type 0 where
  pub method : ChargeMethod
  pub session_method : Option SessionMethod
  pub realm : Text
  pub secret_key : Text
  pub currency : Option Text
  pub recipient : Option Text
  pub decimals : ℕ
  pub fee_payer : Bool
  pub chain_id : Option ℕ
  pub opaque : Option Text

pub record SessionVerifyResult : Type 0 where
  pub receipt : Receipt
  pub management_response : Option Value

pub record PaymentSuccessContext : Type 0 where
  pub credential : PaymentCredential
  pub receipt : Receipt
  pub request : Value
  pub method : Text
  pub intent : Text
  pub management_response : Bool

-- Beside the result of a call, the events that it emits.
abbrev pub Emitting : Type 0 → Type 0
Emitting A = Result VerificationError A × List PaymentSuccessContext

-- `serde_json` on the requests and on the method details of tempo, and the parsers of `alloy` and `hex`.
pub record Codec : Type 0 where
  pub encode_charge : ChargeRequest → Option Text
  pub decode_charge : Text → Option ChargeRequest
  pub charge_value : ChargeRequest → Value
  pub encode_session : SessionRequest → Option Text
  pub decode_session : Text → Option SessionRequest
  pub session_value : SessionRequest → Value
  pub decode_details : Value → Option TempoMethodDetails
  pub parsers : Parsers

pub record ChargeOptions : Type 0 where
  pub description : Option Text
  pub external_id : Option Text
  pub expires : Option Text
  pub fee_payer : Bool

pub record SessionChallengeOptions : Type 0 where
  pub unit_type : Option Text
  pub suggested_deposit : Option Text
  pub fee_payer : Bool
  pub description : Option Text
  pub expires : Option Text
