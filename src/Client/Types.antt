-- ===== src/Client/Types.antt =====
-- The data of src/client/tempo/session/mod.rs and channel_ops.rs, and the functions of other libraries
-- (`alloy`, `tempo_primitives`, `serde_json`, the HTTP client, the clock, random numbers) as one record.
-- An address and a hash are numbers; `none` is the error of a call that returns a `Result`.
use mpp_rs.Prelude.{ℕ, Text, Bool, Option, none, some, List, [], ◌∷◌, bytes_eq, if◌then◌else◌}
use mpp_rs.Charge.Json.{Value}
use mpp_rs.Server.Challenge.{PaymentChallenge, Clock, ChallengeError}
use mpp_rs.Server.Types.{SessionRequest}
use mpp_rs.Session.Types.{OnChainChannel}
use mpp_rs.Headers.Params.{HeaderError}
use mpp_rs.Headers.Tokens.{TokenCodec}

pub record ChannelEntry : Type 0 where
  pub channel_id : ℕ
  pub salt : ℕ
  pub cumulative_amount : ℕ
  pub escrow_contract : ℕ
  pub chain_id : ℕ
  pub opened : Bool

-- The fields of a payload that the client fills; it never sends a top-up.
pub record VoucherPayload : Type 0 where
  pub channel_id : Text
  pub cumulative_amount : Text
  pub signature : Text

pub record ChannelDescriptor : Type 0 where
  pub payer : Text
  pub payee : Text
  pub operator : Text
  pub token : Text
  pub salt : Text
  pub authorized_signer : Text
  pub expiring_nonce_hash : Text

pub record OpenPayload : Type 0 where
  pub payload_type : Text
  pub channel_id : Text
  pub transaction : Text
  pub descriptor : Option ChannelDescriptor
  pub authorized_signer : Text
  pub cumulative_amount : Text
  pub signature : Text

pub data SessionCredentialPayload : Type 0 where
  open_channel : OpenPayload → SessionCredentialPayload
  voucher : VoucherPayload → SessionCredentialPayload
  close : VoucherPayload → SessionCredentialPayload

-- The calls of the transaction that opens a channel: `open`, and on an escrow contract before it the
-- approval of the deposit, a call of the token.
pub record ApproveCall : Type 0 where
  pub token : ℕ
  pub spender : ℕ
  pub amount : ℕ

pub record OpenCall : Type 0 where
  pub contract : ℕ
  pub payee : ℕ
  pub operator : Option ℕ
  pub token : ℕ
  pub deposit : ℕ
  pub salt : ℕ
  pub authorized_signer : ℕ

pub record OpenTx : Type 0 where
  pub approve : Option ApproveCall
  pub call : OpenCall
  pub chain_id : ℕ
  pub fee_token : ℕ
  pub nonce : ℕ
  pub nonce_key : ℕ
  pub gas_limit : ℕ
  pub gas_price : ℕ
  pub fee_payer : Bool
  pub valid_before : Option ℕ

-- What `compute_channel_id` and its version for the precompile hash.
pub record ChannelParams : Type 0 where
  pub payer : ℕ
  pub payee : ℕ
  pub operator : Option ℕ
  pub token : ℕ
  pub salt : ℕ
  pub authorized_signer : ℕ
  pub escrow_contract : ℕ
  pub expiring_nonce_hash : Option ℕ
  pub chain_id : ℕ

pub record HttpResponse : Type 0 where
  pub is_success : Bool
  pub receipt_header : Option Text

-- At one moment: what the chain and the server answer, a random salt, the time. `hex_address` is the
-- format `{:#x}`, the signers give hex texts.
pub record Wallet : Type 0 where
  pub clock : Clock
  pub codec : TokenCodec
  pub payload_value : SessionCredentialPayload → Value
  pub decode_session : Text → Option SessionRequest
  pub parse_address : Text → Option ℕ
  pub parse_b256 : Text → Option ℕ
  pub format_address : ℕ → Text
  pub format_b256 : ℕ → Text
  pub hex_address : ℕ → Text
  pub channel_reserve_address : ℕ
  pub sign_voucher : ℕ → ℕ → ℕ → ℕ → Option Text
  pub sign_precompile_voucher : ℕ → ℕ → ℕ → Option Text
  pub get_on_chain_channel : ℕ → ℕ → Option OnChainChannel
  pub get_transaction_count : ℕ → Option ℕ
  pub get_gas_price : Option ℕ
  pub random : ℕ
  pub channel_hash : ChannelParams → ℕ
  pub expiring_nonce_hash : OpenTx → ℕ → ℕ
  pub u256_max : ℕ
  pub fee_payer_valid_before : ℕ
  pub sign_and_encode : OpenTx → Option Text
  pub post : Text → Text → Option HttpResponse

pub data ClientError : Type 0 where
  invalid_config invalid_amount http signing : ClientError
  refused : ChallengeError → ClientError
  header : HeaderError → ClientError

-- The settings of a `TempoSessionProvider`: the address of its signer and the one it pays from.
pub record TempoSessionProvider : Type 0 where
  pub signer : ℕ
  pub payer : ℕ
  pub escrow_contract : Option ℕ
  pub authorized_signer : Option ℕ
  pub max_deposit : Option ℕ
  pub default_deposit : Option ℕ

-- A map from texts.
abbrev pub Dict : Type 0 → Type 0
Dict A = List (Text × A)

unfoldable pub lookup : {A : Type 0} → Text → Dict A → Option A
lookup key [] = none
lookup key ((k, a) ∷ entries) = if bytes_eq key k then some a else lookup key entries

unfoldable pub put : {A : Type 0} → Text → A → Dict A → Dict A
put key a [] = (key, a) ∷ []
put key a ((k, old) ∷ entries) =
    if bytes_eq key k then (k, a) ∷ entries else (k, old) ∷ put key a entries

-- Its maps, and the entries that its callback has seen, the last one first.
pub record Registry : Type 0 where
  pub channels : Dict ChannelEntry
  pub channel_id_to_key : Dict Text
  pub last_challenge : Option PaymentChallenge
  pub notified : List ChannelEntry
