-- ===== src/Client/Tests.antt =====
-- A payer with one channel, and the theorems on it.
use mpp_rs.Prelude.{
  ℕ, ◌≤◌, ◌<◌, u128_mod, ◌+◌, ◌≡◌, refl, arith, Text, codes, true, false, none, some, List, [], ◌∷◌,
  bytes_eq, to_decimal, parse_codes, parse_unsigned, parse_digits, eq_ignore_ascii_case, add_u128,
}
use mpp_rs.Prelude.Results.{ok}
use mpp_rs.Charge.Json.{null, get_from}
use mpp_rs.Server.Challenge.{PaymentChallenge, validate_for_session, is_expired, is_session}
use mpp_rs.Server.Types.{PaymentCredential}
use mpp_rs.Headers.Tokens.{format_authorization}
use mpp_rs.Client.Types.{ChannelEntry, voucher, Wallet, TempoSessionProvider, lookup, put, Registry}
use mpp_rs.Client.Terms.{
  request_chain_id, request_escrow, request_channel_id, request_fee_payer, default_escrow_contract,
  resolve_chain_id, resolve_escrow, is_precompile_escrow, key_operator, channel_key, read_terms,
  expected_channel_key,
}
use mpp_rs.Client.Payloads.{
  signed_amount, create_voucher_payload, create_open_payload, build_credential,
}
use mpp_rs.Client.Pay.{
  resolve_deposit, record_entry, sign_next, open_new, suggested_channel, sign_payment, parse_amount,
  prepare, commit, pay, find_channel, sign_required, post_credential, send_voucher,
}
use mpp_rs.Client.Payment.{IsPayment, pay-IsPayment}
use mpp_rs.Client.Ops.{ClientOp, paying, sending, all_asked, apply_op, apply_ops}
use mpp_rs.Client.Owed.{apply_ops-Raised}

-- Every address is 7; the server asks for 50, the signer signs with one letter.
abbrev wallet : Wallet
wallet = record {
  clock = record {
    mac = λ key s. [];
    parse_rfc3339 = λ s. none;
    format_rfc3339 = λ n. none;
    now_utc = 0;
  };
  codec = record {
    encode = λ bytes. bytes;
    decode = λ s. some s;
    credential_to_json = λ c. some [];
    credential_of_json = λ bytes. none;
    receipt_to_json = λ r. none;
    receipt_of_json = λ bytes. none;
    is_iso8601_timestamp = λ s. true;
  };
  payload_value = λ payload. null;
  decode_session = λ s. some (record {
    amount = codes "50";
    unit_type = none;
    currency = codes "c";
    decimals = none;
    recipient = some (codes "r");
    suggested_deposit = some (codes "900");
    method_details = none;
  });
  parse_address = λ s. some 7;
  parse_b256 = λ s. none;
  format_address = λ n. n ∷ [];
  format_b256 = λ n. n ∷ [];
  hex_address = λ n. n ∷ [];
  channel_reserve_address = 1;
  sign_voucher = λ id amount escrow chain. some (codes "s");
  sign_precompile_voucher = λ id amount chain. none;
  get_on_chain_channel = λ escrow id. none;
  get_transaction_count = λ account. some 3;
  get_gas_price = some 20;
  random = 11;
  channel_hash = λ params. 33;
  expiring_nonce_hash = λ tx sender. 0;
  u256_max = 0;
  fee_payer_valid_before = 0;
  sign_and_encode = λ tx. some (codes "tx");
  post = λ url header. some (record { is_success = true; receipt_header = none });
}

abbrev settings : TempoSessionProvider
settings = record {
  signer = 5;
  payer = 5;
  escrow_contract = some 9;
  authorized_signer = none;
  max_deposit = some 600;
  default_deposit = none;
}

abbrev challenge : PaymentChallenge
challenge = record {
  id = codes "id";
  realm = codes "api";
  method = codes "tempo";
  intent = codes "session";
  request = codes "e30";
  expires = none;
  description = none;
  digest = none;
  opaque = none;
}

abbrev key : Text
key = 7 ∷ b':' ∷ 7 ∷ b':' ∷ 9 ∷ []

abbrev entry_at : ℕ → ChannelEntry
entry_at amount = record {
  channel_id = 33;
  salt = 11;
  cumulative_amount = amount;
  escrow_contract = 9;
  chain_id = 42431;
  opened = true;
}

abbrev registry_at : ℕ → Registry
registry_at amount = record {
  channels = (key, entry_at amount) ∷ [];
  channel_id_to_key = (33 ∷ [], key) ∷ [];
  last_challenge = some challenge;
  notified = [];
}

abbrev empty_registry : Registry
empty_registry = record {
  channels = [];
  channel_id_to_key = [];
  last_challenge = none;
  notified = [];
}

-- The first payment opens a channel.
first_pay : (pay wallet settings challenge empty_registry).1.channels ≡ (key, entry_at 50) ∷ []
unfolding pay validate_for_session is_expired is_session eq_ignore_ascii_case prepare commit
    record_entry read_terms resolve_chain_id resolve_escrow request_chain_id request_escrow
    request_channel_id request_fee_payer default_escrow_contract get_from is_precompile_escrow
    key_operator channel_key expected_channel_key parse_amount parse_codes parse_unsigned
    parse_digits sign_payment sign_next open_new suggested_channel resolve_deposit
    create_open_payload create_voucher_payload signed_amount build_credential lookup put bytes_eq
    to_decimal add_u128
first_pay = refl

-- The second raises its entry.
second_pay : (pay wallet settings challenge (registry_at 50)).1.channels ≡ (key, entry_at 100) ∷ []
unfolding pay validate_for_session is_expired is_session eq_ignore_ascii_case prepare commit
    record_entry read_terms resolve_chain_id resolve_escrow request_chain_id request_escrow
    request_channel_id request_fee_payer default_escrow_contract get_from is_precompile_escrow
    key_operator channel_key expected_channel_key parse_amount parse_codes parse_unsigned
    parse_digits sign_payment sign_next open_new suggested_channel resolve_deposit
    create_open_payload create_voucher_payload signed_amount build_credential lookup put bytes_eq
    to_decimal add_u128
second_pay = refl

-- Two payments that both read the registry before one of them writes it sign the same amount.
overlapping_pay :
    (prepare wallet settings challenge (registry_at 50).channels
      ≡ ok (record {
        key = key;
        entry = entry_at 100;
        new_id = false;
        chain_id = 42431;
        payload = voucher (record {
          channel_id = 33 ∷ [];
          cumulative_amount = codes "100";
          signature = codes "s";
        });
      }))
unfolding pay validate_for_session is_expired is_session eq_ignore_ascii_case prepare commit
    record_entry read_terms resolve_chain_id resolve_escrow request_chain_id request_escrow
    request_channel_id request_fee_payer default_escrow_contract get_from is_precompile_escrow
    key_operator channel_key expected_channel_key parse_amount parse_codes parse_unsigned
    parse_digits sign_payment sign_next open_new suggested_channel resolve_deposit
    create_open_payload create_voucher_payload signed_amount build_credential lookup put bytes_eq
    to_decimal add_u128
overlapping_pay = refl

abbrev paid : PaymentCredential
unfolding build_credential to_decimal
paid =
    build_credential wallet challenge
      (voucher
        (record { channel_id = 33 ∷ []; cumulative_amount = codes "100"; signature = codes "s" }))
      42431 5

abbrev after_pay : Registry
after_pay = record (registry_at 100) { notified = entry_at 100 ∷ [] }

pay-run : pay wallet settings challenge (registry_at 50) ≡ (ok paid, after_pay)
unfolding pay validate_for_session is_expired is_session eq_ignore_ascii_case prepare commit
    record_entry read_terms resolve_chain_id resolve_escrow request_chain_id request_escrow
    request_channel_id request_fee_payer default_escrow_contract get_from is_precompile_escrow
    key_operator channel_key expected_channel_key parse_amount parse_codes parse_unsigned
    parse_digits sign_payment sign_next open_new suggested_channel resolve_deposit
    create_open_payload create_voucher_payload signed_amount build_credential lookup put bytes_eq
    to_decimal add_u128
pay-run = refl

pay-IsPayment_example : IsPayment wallet settings challenge (registry_at 50) paid after_pay
pay-IsPayment_example =
    pay-IsPayment wallet settings challenge (registry_at 50) paid after_pay pay-run

abbrev ops : List (Wallet × ClientOp)
ops = (wallet, paying challenge) ∷ (wallet, sending (codes "url") (33 ∷ []) 400) ∷ []

apply_ops-run : (apply_ops settings ops (registry_at 50)).channels ≡ (key, entry_at 400) ∷ []
unfolding apply_ops apply_op pay send_voucher sign_required find_channel post_credential
    format_authorization validate_for_session is_expired is_session eq_ignore_ascii_case prepare
    commit record_entry read_terms resolve_chain_id resolve_escrow request_chain_id request_escrow
    request_channel_id request_fee_payer default_escrow_contract get_from is_precompile_escrow
    key_operator channel_key expected_channel_key parse_amount parse_codes parse_unsigned
    parse_digits sign_payment sign_next open_new suggested_channel resolve_deposit
    create_open_payload create_voucher_payload signed_amount build_credential lookup put bytes_eq
    to_decimal add_u128
apply_ops-run = refl

there : lookup key (registry_at 50).channels ≡ some (entry_at 50)
unfolding lookup bytes_eq
there = refl

fits : 50 + all_asked ops < u128_mod
unfolding parse_codes parse_unsigned parse_digits
fits = omega arith

apply_ops-Raised_example :
    (after : ChannelEntry) × (lookup key (apply_ops settings ops (registry_at 50)).channels
      ≡ some after)
    × (after.opened ≡ true)
    × ◌≡◌ {A = ℕ} after.channel_id 33
    × (50 ≤ after.cumulative_amount)
    × (after.cumulative_amount ≤ 50 + all_asked ops)
apply_ops-Raised_example =
    apply_ops-Raised settings ops key (entry_at 50) (registry_at 50) there refl fits
