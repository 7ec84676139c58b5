-- ===== src/Server/ChargeTests.antt =====
-- A charge with details that the codec of Server.Toy reads back in another order, and the theorem on it.
use mpp_rs.Prelude.{
  ◌≡◌, refl, sym, ap, Text, codes, false, none, some, Option, [], ◌∷◌, ◌++◌, arith, bytes_eq,
  bytes_eq_iff, all_chars, split_once, trim, trim_start, trim_end, parse_codes, parse_unsigned,
  parse_digits, to_decimal, length, take, drop, Bool-cases, inl, inr,
}
use mathlib.Core.Path.{subst}
use mpp_rs.Prelude.Results.{ok}
use mpp_rs.Amounts.{parse_dollar_amount, combine_parts, part_value, base_units}
use mpp_rs.Charge.Json.{null, get, get_from, get_member, insert_member}
use mpp_rs.Charge.Request.{ChargeRequest, with_base_units}
use mpp_rs.Charge.Tempo.{
  get_request_transfers, recipient_address, amount_u256, tempo_method_details,
}
use mpp_rs.Transfers.{parse_memo_bytes_in_context, get_transfers}
use mpp_rs.Server.Challenge.{PaymentChallenge, to_echo, hmac_input, compute_challenge_id}
use mpp_rs.Server.Types.{PaymentCredential, ChargeOptions}
use mpp_rs.Server.Verify.{verify_credential, emit}
use mpp_rs.Server.Verified.{success_of}
use mpp_rs.Server.Create.{
  charge_with_options, charge_request, require_bound_config, charge_details,
  charge_challenge_with_options, tempo_charge_challenge, expires_or_default, tempo_challenge,
  apply_pinned_opaque,
}
use mpp_rs.Server.Issued.{at_time}
use mpp_rs.Server.Charged.{IsCharge, IsReadBack, charge_with_options-IsTaken}
use mpp_rs.Server.Toy.{sorting_codec, sorted_details, clock, detailed, pack}

abbrev options : ChargeOptions
options = record { description = none; external_id = none; expires = none; fee_payer = false }

take-length : (s t : Text) → take (length s) (s ++ t) ≡ s
take-length [] t = refl
take-length (c ∷ s) t = ap (λ u. c ∷ u) (take-length s t)

drop-length : (s t : Text) → drop (length s) (s ++ t) ≡ t
drop-length [] t = refl
drop-length (c ∷ s) t = drop-length s t

abbrev back : Text → Text → Text → ChargeRequest
back units currency recipient = record {
  amount = units;
  currency = currency;
  decimals = none;
  recipient = some recipient;
  description = none;
  external_id = none;
  method_details = some sorted_details;
}

-- The two orders of the details have the same members.
same_details :
    (units currency recipient key : Text)
    → get_from key (some sorted_details)
      ≡ get_from key (charge_request detailed units currency recipient options).method_details
unfolding get_from get get_member charge_details insert_member to_decimal bytes_eq
same_details units currency recipient key = elim (Bool-cases (bytes_eq key (codes "chainId"))) [
  | inl is_chain ↦
      subst
        (λ (k : Text).
          get_from k (some sorted_details)
          ≡ get_from k (charge_request detailed units currency recipient options).method_details)
        (sym ((bytes_eq_iff key (codes "chainId")).0 is_chain)) refl
  | inr other ↦ elim (Bool-cases (bytes_eq key (codes "feePayer"))) [
    | inl is_fee ↦ rw (other, is_fee)
    | inr unknown ↦ rw (other, unknown)
  ]
]

of_some : {a b : Text} → ◌≡◌ {A = Option Text} (some a) (some b) → a ≡ b
of_some e = cc

codec_reads :
    (units currency recipient s : Text)
    → sorting_codec.encode_charge (charge_request detailed units currency recipient options)
      ≡ some s
    → (read : ChargeRequest) × (sorting_codec.decode_charge s ≡ some read)
      × IsReadBack (charge_request detailed units currency recipient options) read
unfolding charge_details insert_member bytes_eq
codec_reads units currency recipient s e =
    let rest = pack currency recipient in
    let written : pack units rest ≡ s = of_some e in
    (
      back units currency recipient,
      rw (← written) (
          rw (
            take-length units rest,
            drop-length units rest,
            take-length currency recipient,
            drop-length currency recipient,
          )),
      record {
        amount = refl;
        currency = refl;
        decimals = refl;
        recipient = refl;
        description = refl;
        external_id = refl;
        details = same_details units currency recipient;
      },
    )

abbrev packed : Text
packed = pack (codes "1500000") (pack (codes "0xc") (codes "0xr"))

abbrev challenge : PaymentChallenge
challenge = record {
  id = codes "keyapi|tempo|charge|" ++ (packed ++ codes "|later||e30");
  realm = codes "api";
  method = codes "tempo";
  intent = codes "charge";
  request = packed;
  expires = some (codes "later");
  description = none;
  digest = none;
  opaque = some (codes "e30");
}

charge-run : charge_with_options clock sorting_codec detailed (codes "1.50") options ≡ ok challenge
unfolding charge_with_options require_bound_config parse_dollar_amount combine_parts part_value
    base_units trim trim_start trim_end split_once all_chars parse_codes parse_unsigned parse_digits
    to_decimal charge_details insert_member charge_challenge_with_options tempo_charge_challenge
    with_base_units get_request_transfers recipient_address amount_u256 tempo_method_details
    parse_memo_bytes_in_context get_transfers expires_or_default tempo_challenge apply_pinned_opaque
    compute_challenge_id hmac_input bytes_eq
charge-run = refl

abbrev credential : PaymentCredential
credential = record { challenge = to_echo challenge; source = none; payload = null }

charge_with_options-IsTaken_example :
    (made : IsCharge clock sorting_codec detailed (codes "1.50") options challenge)
    × (read : ChargeRequest) × IsReadBack
        (charge_request detailed made.units made.currency made.recipient options)
        read
    × (verify_credential (at_time clock 399) sorting_codec detailed credential
        ≡ emit (detailed.method.verify credential read) (success_of sorting_codec credential read))
charge_with_options-IsTaken_example =
    charge_with_options-IsTaken clock sorting_codec detailed (codes "1.50") options challenge
      credential 399 400 (codes "later") codec_reads refl charge-run refl refl refl (omega arith)
