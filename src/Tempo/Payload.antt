-- ===== src/Tempo/Payload.antt =====
-- `PaymentPayload` of src/protocol/core/challenge.rs, and the settings of a request that the charge method
-- reads. What `serde` derives for the raw fields is a parameter.
use mpp_rs.Prelude.{ℕ, Text, codes, Bool, Option, some}
use mpp_rs.Charge.Json.{get_from}
use mpp_rs.Charge.Request.{ChargeRequest}
use mpp_rs.Tempo.Logs.{and_then}
use mpp_rs.Tempo.Source.{as_u64, is_true}

pub data PayloadType : Type 0 where
  transaction hash proof : PayloadType

pub record RawPayload : Type 0 where
  pub payload_type : PayloadType
  pub signature : Option Text
  pub hash : Option Text

pub record PaymentPayload : Type 0 where
  pub payload_type : PayloadType
  pub content : Text

-- The field that a kind of payload must have.
unfoldable pub payload_of : RawPayload → Option PaymentPayload
payload_of raw =
    and_then
      (elim raw.payload_type [
        | transaction ↦ raw.signature
        | proof ↦ raw.signature
        | hash ↦ raw.hash
      ])
      λ content. some (record { payload_type = raw.payload_type; content = content })

unfoldable pub charge_chain_id : ChargeRequest → Option ℕ
unfolding get_from
charge_chain_id charge = and_then (get_from (codes "chainId") charge.method_details) as_u64

unfoldable pub charge_fee_payer : ChargeRequest → Bool
unfolding get_from
charge_fee_payer charge = is_true (get_from (codes "feePayer") charge.method_details)
