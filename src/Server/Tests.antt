-- ===== src/Server/Tests.antt =====
-- A charge of a dollar and a half by the server of Server.Toy, and the theorems on it.
use mpp_rs.Prelude.{
  ◌≡◌, refl, Text, codes, false, none, some, List, [], ◌∷◌, ◌++◌, bytes_eq, all_chars, split_once,
  trim, trim_start, trim_end, parse_codes, parse_unsigned, parse_digits, to_decimal,
  eq_ignore_ascii_case, as_bytes, utf8_bytes,
}
use mpp_rs.Prelude.Results.{ok}
use mpp_rs.Amounts.{parse_dollar_amount, combine_parts, part_value, base_units}
use mpp_rs.Charge.Json.{null, insert_member}
use mpp_rs.Charge.Request.{ChargeRequest, with_base_units}
use mpp_rs.Charge.Tempo.{
  get_request_transfers, recipient_address, amount_u256, tempo_method_details,
}
use mpp_rs.Transfers.{parse_memo_bytes_in_context, get_transfers}
use mpp_rs.Server.Challenge.{
  PaymentChallenge, ChallengeEcho, to_echo, is_charge, hmac_input, constant_time_eq,
  compute_challenge_id,
}
use mpp_rs.Server.Ids.{IsPlain, hmac_input-injective}
use mpp_rs.Server.Types.{
  PaymentCredential, SessionRequest, SessionVerifyResult, PaymentSuccessContext, ChargeOptions,
}
use mpp_rs.Server.Verify.{
  verify, verify_credential, verify_credential_with_expected_request, verify_session,
  checked_receipt, emit, verify_hmac_and_expiry, verify_pinned_fields, verify_opaque, option_eq,
  check_expected, check_transfers, transfers_eq, checked_session,
}
use mpp_rs.Server.Verified.{IsCurrent, IsPinned, success_of, verify-IsChecked}
use mpp_rs.Server.Expected.{IsExpected, verify_credential_with_expected_request-IsExpected}
use mpp_rs.Server.Sessions.{IsCheckedSession, session_success, verify_session-IsCheckedSession}
use mpp_rs.Server.Create.{
  charge_with_options, charge_request, require_bound_config, charge_details,
  charge_challenge_with_options, tempo_charge_challenge, expires_or_default, tempo_challenge,
  apply_pinned_opaque,
}
use mpp_rs.Server.Toy.{codec, clock, receipt, server, pack}

abbrev options : ChargeOptions
options = record { description = none; external_id = none; expires = none; fee_payer = false }

abbrev asked : ChargeRequest
asked = charge_request server (codes "1500000") (codes "0xc") (codes "0xr") options

abbrev packed : Text
packed = pack (codes "1500000") (pack (codes "0xc") (codes "0xr"))

abbrev challenge : PaymentChallenge
challenge = record {
  id = codes "keyapi|tempo|charge|" ++ (packed ++ codes "|later||e30");
  realm = codes "api";
  method = codes "tempo";
  intent = codes "charge";
  request = packed;
  expires = some (codes "later");
  description = none;
  digest = none;
  opaque = some (codes "e30");
}

charge-run : charge_with_options clock codec server (codes "1.50") options ≡ ok challenge
unfolding charge_with_options require_bound_config parse_dollar_amount combine_parts part_value
    base_units trim trim_start trim_end split_once all_chars parse_codes parse_unsigned parse_digits
    to_decimal charge_details insert_member charge_challenge_with_options tempo_charge_challenge
    with_base_units get_request_transfers recipient_address amount_u256 tempo_method_details
    parse_memo_bytes_in_context get_transfers expires_or_default tempo_challenge apply_pinned_opaque
    compute_challenge_id hmac_input
charge-run = refl

abbrev credential : PaymentCredential
credential = record { challenge = to_echo challenge; source = none; payload = null }

abbrev events : List PaymentSuccessContext
events = success_of codec credential asked receipt ∷ []

verify-run : verify clock codec server credential asked ≡ (ok receipt, events)
unfolding verify checked_receipt verify_hmac_and_expiry compute_challenge_id hmac_input
    constant_time_eq as_bytes utf8_bytes verify_pinned_fields verify_opaque is_charge
    eq_ignore_ascii_case bytes_eq option_eq emit
verify-run = refl

verify-IsChecked_example :
    IsCurrent clock server credential.challenge
    × IsPinned server credential.challenge asked
    × (server.method.verify credential asked ≡ ok receipt)
    × (events ≡ success_of codec credential asked receipt ∷ [])
verify-IsChecked_example =
    verify-IsChecked clock codec server credential asked receipt events verify-run

expected-run :
    verify_credential_with_expected_request clock codec server credential asked
    ≡ (ok receipt, events)
unfolding verify_credential_with_expected_request check_expected check_transfers
    get_request_transfers recipient_address amount_u256 tempo_method_details
    parse_memo_bytes_in_context get_transfers transfers_eq verify checked_receipt
    verify_hmac_and_expiry compute_challenge_id hmac_input constant_time_eq as_bytes utf8_bytes
    verify_pinned_fields verify_opaque is_charge eq_ignore_ascii_case bytes_eq option_eq emit
    charge_details
expected-run = refl

verify_credential_with_expected_request-IsExpected_example :
    (request : ChargeRequest) × (codec.decode_charge credential.challenge.request ≡ some request)
    × IsExpected codec credential request asked
    × (verify_credential clock codec server credential ≡ (ok receipt, events))
verify_credential_with_expected_request-IsExpected_example =
    verify_credential_with_expected_request-IsExpected clock codec server credential asked receipt
      events expected-run

-- The same server takes the credential for a session, whose currency is compared without case.
abbrev verified : SessionVerifyResult
verified = record { receipt = receipt; management_response = none }

abbrev session_request : SessionRequest
session_request = record {
  amount = packed;
  unit_type = none;
  currency = codes "0xc";
  decimals = none;
  recipient = some (codes "0xR");
  suggested_deposit = none;
  method_details = none;
}

abbrev session_events : List PaymentSuccessContext
session_events = session_success clock codec server credential session_request verified ∷ []

session-run : verify_session clock codec server credential ≡ (ok verified, session_events)
unfolding verify_session checked_session verify_hmac_and_expiry compute_challenge_id hmac_input
    constant_time_eq as_bytes utf8_bytes verify_opaque eq_ignore_ascii_case bytes_eq option_eq emit
session-run = refl

verify_session-IsCheckedSession_example :
    (request : SessionRequest) × IsCheckedSession clock codec server credential request verified
    × (session_events ≡ session_success clock codec server credential request verified ∷ [])
verify_session-IsCheckedSession_example =
    verify_session-IsCheckedSession clock codec server credential verified session_events
      session-run

plain : IsPlain credential.challenge
unfolding all_chars
plain = (refl, refl, refl, refl, refl, refl, refl)

-- The same fields under another id.
abbrev renamed : ChallengeEcho
renamed = record credential.challenge { id = codes "other" }

hmac_input-injective_example :
    record renamed { id = credential.challenge.id } ≡ credential.challenge
hmac_input-injective_example = hmac_input-injective renamed credential.challenge plain plain refl

-- An absent field and an empty one, and a separator inside a field, have one text under the HMAC.
ambiguous_inputs :
    (hmac_input (codes "a") [] [] [] none none none
      ≡ hmac_input (codes "a") [] [] [] (some []) none none)
    × (hmac_input (codes "a|b") [] [] [] none none none
        ≡ hmac_input (codes "a") (codes "b") [] [] none none (some (codes "|")))
unfolding hmac_input
ambiguous_inputs = (refl, refl)
