-- ===== src/Server/Create.antt =====
-- The creation of challenges in src/server/mpp.rs and src/protocol/methods/tempo/mod.rs. Times are
-- nanoseconds.
use mpp_rs.Prelude.{
  ℕ, ◌+◌, ◌*◌, ◌^◌, Text, codes, Bool, true, false, ◌||◌, Option, none, some, to_decimal,
  if◌then◌else◌,
}
use mpp_rs.Prelude.Results.{Result, ok, ◌>>=◌, ok_or, map_err}
use mpp_rs.Amounts.{parse_dollar_amount}
use mpp_rs.Charge.Json.{Value, Members, boolean, number, object, no_member, member, insert_member}
use mpp_rs.Charge.Request.{
  MppError, invalid_dollars, invalid_transfers, invalid_config, json, ChargeRequest,
  with_base_units,
}
use mpp_rs.Charge.Tempo.{get_request_transfers}
use mpp_rs.Server.Challenge.{Clock, PaymentChallenge, compute_challenge_id}
use mpp_rs.Server.Types.{SessionMethod, Mpp, Codec, ChargeOptions, SessionChallengeOptions}

abbrev pub default_expires_minutes : ℕ
default_expires_minutes = 5

unfoldable pub require_bound_config : Mpp → Result MppError (Text × Text)
require_bound_config m = ok_or m.currency invalid_config >>= λ currency.
    ok_or m.recipient invalid_config >>= λ recipient. ok (currency, recipient)

-- An object with no member is left out.
abbrev pub object_if_any : Members → Option Value
object_if_any no_member = none
object_if_any (member k v rest) = some (object (member k v rest))

abbrev pub insert_if : Bool → Text → Value → Members → Members
insert_if b key value members = if b then insert_member key value members else members

abbrev pub insert_if_some : Option ℕ → Text → Members → Members
insert_if_some none key members = members
insert_if_some (some n) key members = insert_member key (number (to_decimal n)) members

unfoldable pub charge_details : Mpp → ChargeOptions → Option Value
unfolding insert_member
charge_details m options = object_if_any (
    insert_if_some m.chain_id (codes "chainId")
      (insert_if (options.fee_payer || m.fee_payer) (codes "feePayer") (boolean true) no_member))

-- `get_or_insert_with`, then an insertion if the value is an object.
abbrev pub object_or_empty : Option Value → Value
object_or_empty none = object no_member
object_or_empty (some v) = v

abbrev pub with_fee_payer : Value → Value
with_fee_payer (object members) = object (insert_member (codes "feePayer") (boolean true) members)
with_fee_payer v = v

abbrev pub session_details : Option SessionMethod → Option Value
session_details none = none
session_details (some session) = session.challenge_method_details

abbrev pub plain_request : Text → Text → Text → ChargeRequest
plain_request amount currency recipient = record {
  amount = amount;
  currency = currency;
  decimals = none;
  recipient = some recipient;
  description = none;
  external_id = none;
  method_details = none;
}

abbrev pub charge_request : Mpp → Text → Text → Text → ChargeOptions → ChargeRequest
charge_request m amount currency recipient options = record {
  amount = amount;
  currency = currency;
  decimals = none;
  recipient = some recipient;
  description = options.description;
  external_id = options.external_id;
  method_details = charge_details m options;
}

module _ (x : Clock) where
  unfoldable pub apply_pinned_opaque : Mpp → PaymentChallenge → PaymentChallenge
  unfolding compute_challenge_id
  apply_pinned_opaque m challenge = elim m.opaque [
    | none ↦ challenge
    | some opaque ↦ record challenge {
      id =
          compute_challenge_id x m.secret_key challenge.realm challenge.method challenge.intent
            challenge.request challenge.expires challenge.digest (some opaque);
      opaque = some opaque;
    }
  ]

  unfoldable pub expires_or_default : Option Text → Result MppError Text
  expires_or_default (some e) = ok e
  expires_or_default none =
      ok_or (x.format_rfc3339 (x.now_utc + default_expires_minutes * 60 * 10 ^ 9)) invalid_config

  -- A challenge of `tempo` with an id over its fields.
  unfoldable pub tempo_challenge : Text → Text → Text → Text → Text → Option Text → PaymentChallenge
  unfolding compute_challenge_id
  tempo_challenge secret_key realm intent request expires description = record {
    id =
        compute_challenge_id x secret_key realm (codes "tempo") intent request (some expires) none
          none;
    realm = realm;
    method = codes "tempo";
    intent = intent;
    request = request;
    expires = some expires;
    description = description;
    digest = none;
    opaque = none;
  }

  module _ (codec : Codec) where
    unfoldable pub tempo_charge_challenge :
        Text → Text → ChargeRequest → Option Text → Option Text → Result MppError PaymentChallenge
    unfolding with_base_units get_request_transfers expires_or_default tempo_challenge
    tempo_charge_challenge secret_key realm request expires description = do
      request' ← with_base_units request
      _ ←
          map_err invalid_transfers
            (get_request_transfers codec.parsers codec.decode_details request')
      encoded ← ok_or (codec.encode_charge request') json
      expires' ← expires_or_default expires
      ok (tempo_challenge secret_key realm (codes "charge") encoded expires' description)

    unfoldable pub charge_challenge_with_options :
        Mpp → ChargeRequest → Option Text → Option Text → Result MppError PaymentChallenge
    unfolding tempo_charge_challenge apply_pinned_opaque
    charge_challenge_with_options m request expires description = do
      challenge ← tempo_charge_challenge m.secret_key m.realm request expires description
      ok (apply_pinned_opaque m challenge)

    unfoldable pub charge_challenge : Mpp → Text → Text → Text → Result MppError PaymentChallenge
    unfolding charge_challenge_with_options
    charge_challenge m amount currency recipient =
        charge_challenge_with_options m (plain_request amount currency recipient) none none

    unfoldable pub charge_with_options :
        Mpp → Text → ChargeOptions → Result MppError PaymentChallenge
    unfolding require_bound_config parse_dollar_amount charge_challenge_with_options
    charge_with_options m amount options = do
      (currency, recipient) ← require_bound_config m
      base_units ← map_err invalid_dollars (parse_dollar_amount amount m.decimals)
      charge_challenge_with_options m (charge_request m base_units currency recipient options)
          options.expires options.description

    unfoldable pub charge : Mpp → Text → Result MppError PaymentChallenge
    unfolding charge_with_options
    charge m amount =
        charge_with_options m amount
          (record { description = none; external_id = none; expires = none; fee_payer = false })

    unfoldable pub session_challenge : Mpp → Text → Text → Text → Result MppError PaymentChallenge
    unfolding expires_or_default tempo_challenge apply_pinned_opaque
    session_challenge m amount currency recipient = do
      encoded ←
          ok_or
            (codec.encode_session (record {
              amount = amount;
              unit_type = none;
              currency = currency;
              decimals = none;
              recipient = some recipient;
              suggested_deposit = none;
              method_details = none;
            }))
            json
      expires ← expires_or_default none
      ok (
          apply_pinned_opaque m
            (tempo_challenge m.secret_key m.realm (codes "session") encoded expires none))

    unfoldable pub session_challenge_with_details :
        Mpp → Text → Text → Text → SessionChallengeOptions → Result MppError PaymentChallenge
    unfolding expires_or_default tempo_challenge apply_pinned_opaque insert_member
    session_challenge_with_details m amount currency recipient options = do
      encoded ←
          ok_or
            (codec.encode_session (record {
              amount = amount;
              unit_type = options.unit_type;
              currency = currency;
              decimals = none;
              recipient = some recipient;
              suggested_deposit = options.suggested_deposit;
              method_details =
                  if options.fee_payer || m.fee_payer
                  then some (with_fee_payer (object_or_empty (session_details m.session_method)))
                  else session_details m.session_method;
            }))
            json
      expires ← expires_or_default options.expires
      ok (
          apply_pinned_opaque m (
            tempo_challenge m.secret_key m.realm (codes "session") encoded expires
              options.description))
