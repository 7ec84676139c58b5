-- ===== src/Session/Method/Resolve.antt =====
-- The parsers of `SessionMethod` and the values that a request may override.
use mpp_rs.Prelude.{ℕ, String, Option, none, some, not, ◌==◌, parse_u128, strip_0x}
use mpp_rs.Error.{Result, ok, invalid_payload, credential_mismatch, ok_or}
use mpp_rs.Voucher.{Address, B256, Bytes}
use mpp_rs.Session.Types.{SessionMethodConfig, TempoSessionMethodDetails, SessionRequest}
use mpp_rs.Session.Externs.{Externs}
use mpp_rs.Session.Task.{Task, ◌>>◌, fail_if}

-- The provider and the store are reached through the task; the signer is known by its address.
pub record SessionMethod : Type 0 where
  pub config : SessionMethodConfig
  pub close_signer : Option Address

unfoldable pub u128_or_invalid : String → Result ℕ
u128_or_invalid s = ok_or (parse_u128 s) invalid_payload

abbrev pub unwrap_or : {A : Type 0} → Option A → A → A
unwrap_or none d = d
unwrap_or (some a) d = a

module _ (x : Externs) where
  unfoldable pub parse_channel_id : String → Result B256
  parse_channel_id s = ok_or (x.parse_b256 s) invalid_payload

  unfoldable pub parse_signature : String → Result Bytes
  unfolding strip_0x
  parse_signature s = ok_or (x.hex_decode (strip_0x s)) invalid_payload

  unfoldable pub parse_address : String → Result Address
  parse_address s = ok_or (x.address_of_str s) invalid_payload

  -- It falls back to the configuration and never fails.
  unfoldable pub resolve_method_details :
      SessionMethod → SessionRequest → Result TempoSessionMethodDetails
  resolve_method_details m request = elim request.method_details [
    | some details ↦ ok details
    | none ↦ ok (record {
      escrow_contract = x.format_address m.config.escrow_contract;
      channel_id = none;
      min_voucher_delta = none;
      chain_id = some m.config.chain_id;
      fee_payer = none;
      operator = none;
      session_protocol = none;
    })
  ]

  unfoldable pub resolve_escrow : TempoSessionMethodDetails → Result Address
  unfolding parse_address
  resolve_escrow details = parse_address details.escrow_contract

unfoldable pub resolve_chain_id : SessionMethod → TempoSessionMethodDetails → ℕ
resolve_chain_id m details = unwrap_or details.chain_id m.config.chain_id

-- `as_ref().and_then(parse)`: an absent or unreadable value is the configuration's.
abbrev parsed : Option String → Option ℕ
parsed none = none
parsed (some s) = parse_u128 s

unfoldable pub resolve_min_delta : SessionMethod → TempoSessionMethodDetails → ℕ
resolve_min_delta m details =
    unwrap_or (parsed details.min_voucher_delta) m.config.min_voucher_delta

-- `channel.payee` and `channel.token` against those of the request.
unfoldable pub check_parties : Address → Address → Address → Address → Task (Unit {0})
check_parties payee token expected_payee expected_token = do
  fail_if (not (payee == expected_payee)) credential_mismatch
  fail_if (not (token == expected_token)) credential_mismatch
