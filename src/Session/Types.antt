-- ===== src/Session/Types.antt =====
-- The data of src/protocol/methods/tempo/session_method.rs, and what it reads of session.rs, of
-- src/protocol/intents/session.rs and of src/protocol/core (the credential, the receipt).
use mpp_rs.Prelude.{ℕ, String, Bool, Option}
use mpp_rs.Voucher.{Address, Bytes}

pub record ChannelState : Type 0 where
  pub channel_id : String
  pub chain_id : ℕ
  pub escrow_contract : Address
  pub payer : Address
  pub payee : Address
  pub token : Address
  pub authorized_signer : Address
  pub deposit : ℕ
  pub settled_on_chain : ℕ
  pub highest_voucher_amount : ℕ
  pub highest_voucher_signature : Option Bytes
  pub spent : ℕ
  pub units : ℕ
  pub finalized : Bool
  pub closing : Bool
  pub close_requested_at : ℕ
  pub created_at : String

pub record OnChainChannel : Type 0 where
  pub payer : Address
  pub payee : Address
  pub token : Address
  pub authorized_signer : Address
  pub deposit : ℕ
  pub settled : ℕ
  pub close_requested_at : ℕ
  pub finalized : Bool

pub record SessionMethodConfig : Type 0 where
  pub escrow_contract : Address
  pub chain_id : ℕ
  pub min_voucher_delta : ℕ

-- The fields that the server's method reads.
pub record TempoSessionMethodDetails : Type 0 where
  pub escrow_contract : String
  pub channel_id : Option String
  pub min_voucher_delta : Option String
  pub chain_id : Option ℕ
  pub fee_payer : Option Bool
  pub operator : Option String
  pub session_protocol : Option String

-- The descriptor of a channel is carried and never read here.
pub record ChannelDescriptor : Type 0 where
  pub payer : String
  pub payee : String
  pub operator : String
  pub token : String
  pub salt : String
  pub authorized_signer : String
  pub expiring_nonce_hash : String

pub record OpenPayload : Type 0 where
  pub payload_type : String
  pub channel_id : String
  pub transaction : String
  pub descriptor : Option ChannelDescriptor
  pub authorized_signer : Option String
  pub cumulative_amount : String
  pub signature : String

pub record TopUpPayload : Type 0 where
  pub payload_type : String
  pub channel_id : String
  pub transaction : String
  pub descriptor : Option ChannelDescriptor
  pub additional_deposit : String

-- A voucher and a close carry the same fields.
pub record VoucherPayload : Type 0 where
  pub channel_id : String
  pub descriptor : Option ChannelDescriptor
  pub cumulative_amount : String
  pub signature : String

pub data SessionCredentialPayload : Type 0 where
  open_channel : OpenPayload → SessionCredentialPayload
  top_up : TopUpPayload → SessionCredentialPayload
  voucher : VoucherPayload → SessionCredentialPayload
  close : VoucherPayload → SessionCredentialPayload

-- `method_details` holds what `tempo_session_details` decodes, `none` where it fails.
pub record SessionRequest : Type 0 where
  pub amount : String
  pub unit_type : Option String
  pub currency : String
  pub decimals : Option ℕ
  pub recipient : Option String
  pub suggested_deposit : Option String
  pub method_details : Option TempoSessionMethodDetails

-- The method and the intent stand in the credential's echo of the challenge; of that and of the payer's
-- identifier nothing else is read. `payload` holds what `payload_as` decodes, `none` where it fails.
pub record PaymentCredential : Type 0 where
  pub method : String
  pub intent : String
  pub payload : Option SessionCredentialPayload

-- What `Receipt::success` is given: the method and the reference. The status is success, the time is the
-- clock's and there is no external id.
pub record Receipt : Type 0 where
  pub method : String
  pub reference : String

abbrev pub method_name : String
method_name = "tempo"

abbrev pub intent_session : String
intent_session = "session"
