-- ===== src/Session/Externs.antt =====
-- What session_method.rs calls of other libraries (`alloy`, `tempo_primitives`, `hex`, the clock), as
-- one record of functions. `none` is the error of a call that returns a `Result`.
use mpp_rs.Prelude.{ℕ, String, Option, List}
use mpp_rs.Voucher.{Address, B256, Bytes, Recover}

-- A call of a decoded transaction; `to` is `none` for a contract creation.
pub record TxCall : Type 0 where
  pub to : Option Address
  pub input : Bytes

pub record SignedTx : Type 0 where
  pub calls : List TxCall
  pub signature : Bytes

-- The arguments of `escrow.open`.
pub record OpenCall : Type 0 where
  pub payee : Address
  pub token : Address
  pub deposit : ℕ
  pub salt : B256
  pub authorized_signer : Address

-- The transaction that closes a channel: one call of `escrow.close`.
pub record CloseTx : Type 0 where
  pub chain_id : ℕ
  pub nonce : ℕ
  pub gas_limit : ℕ
  pub max_fee_per_gas : ℕ
  pub max_priority_fee_per_gas : ℕ
  pub to : Address
  pub channel_id : B256
  pub cumulative_amount : ℕ
  pub signature : Bytes

-- What `compute_channel_id` encodes and hashes.
pub record ChannelParams : Type 0 where
  pub payer : Address
  pub payee : Address
  pub token : Address
  pub salt : B256
  pub authorized_signer : Address
  pub escrow_contract : Address
  pub chain_id : ℕ

pub record Externs : Type 0 where
  pub parse_b256 : String → Option B256
  pub address_of_str : String → Option Address
  pub hex_decode : String → Option Bytes
  pub bytes_of_str : String → Option Bytes
  pub format_address : Address → String
  pub tempo_tx_type_id : ℕ
  pub rlp_decode : Bytes → Option SignedTx
  pub recover_signer : SignedTx → Option Address
  pub open_selector : Bytes
  pub decode_open : Bytes → Option OpenCall
  pub keccak_of_params : ChannelParams → B256
  pub recover : Recover
  pub sign_close : Address → CloseTx → Option Bytes
  pub now : String
