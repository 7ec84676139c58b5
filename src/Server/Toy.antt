-- ===== src/Server/Toy.antt =====
-- Codecs for requests with no more than an amount, a currency, a recipient and perhaps fixed details; a
-- clock and servers.
use mpp_rs.Prelude.{
  Text, codes, true, false, to_decimal, Option, none, some, [], ◌∷◌, ◌++◌, length, take, drop,
}
use mpp_rs.Prelude.Results.{ok}
use mpp_rs.Charge.Json.{Value, null, boolean, number, object, no_member, member}
use mpp_rs.Charge.Request.{ChargeRequest}
use mpp_rs.Server.Challenge.{Clock}
use mpp_rs.Server.Types.{Receipt, SessionMethod, Mpp, Codec}

-- A text behind its length, and then another.
abbrev pub pack : Text → Text → Text
pack s t = length s ∷ (s ++ t)

abbrev pub unpack : Text → Text × Text
unpack [] = ([], [])
unpack (n ∷ s) = (take n s, drop n s)

abbrev encode_fields :
    Text → Text → Option Text → Option Text → Option Text → Option Value → Option Text
encode_fields amount currency (some recipient) none none none =
    some (pack amount (pack currency recipient))
encode_fields _ _ _ _ _ _ = none

abbrev decode_fields : Text → Option ChargeRequest
decode_fields s =
    let outer = unpack s in
    let inner = unpack outer.1 in
    some (record {
      amount = outer.0;
      currency = inner.0;
      decimals = none;
      recipient = some inner.1;
      description = none;
      external_id = none;
      method_details = none;
    })

abbrev pub codec : Codec
codec = record {
  encode_charge = λ r.
      encode_fields r.amount r.currency r.recipient r.description r.external_id r.method_details;
  decode_charge = decode_fields;
  charge_value = λ r. null;
  encode_session = λ r. some r.amount;
  decode_session = λ s. some (record {
    amount = s;
    unit_type = none;
    currency = codes "0xc";
    decimals = none;
    recipient = some (codes "0xR");
    suggested_deposit = none;
    method_details = none;
  });
  session_value = λ r. null;
  decode_details = λ v. none;
  parsers = record {
    parse_amount = λ s. some 1500000;
    parse_address = λ s. some 8;
    hex_decode = λ s. none;
  };
}

abbrev pub clock : Clock
clock = record {
  mac = λ secret input. secret ++ input;
  parse_rfc3339 = λ s. some 400;
  format_rfc3339 = λ t. some (codes "later");
  now_utc = 100;
}

abbrev pub receipt : Receipt
receipt = record {
  method = codes "tempo";
  timestamp = codes "now";
  reference = codes "0x1";
  external_id = none;
}

abbrev pub session_method : SessionMethod
session_method = record {
  verify_session = λ credential request. ok receipt;
  challenge_method_details = none;
  respond = λ credential receipt. none;
}

abbrev pub server : Mpp
server = record {
  method = record { method = codes "tempo"; verify = λ credential request. ok receipt };
  session_method = some session_method;
  realm = codes "api";
  secret_key = codes "key";
  currency = some (codes "0xc");
  recipient = some (codes "0xr");
  decimals = 6;
  fee_payer = false;
  chain_id = none;
  opaque = some (codes "e30");
}

-- A server with details for its charges, and a codec that reads them back in the order of their names.
abbrev pub detailed : Mpp
detailed = record server { fee_payer = true; chain_id = some 42431 }

abbrev pub sorted_details : Value
unfolding to_decimal
sorted_details = object (
    member (codes "chainId") (number (to_decimal 42431))
      (member (codes "feePayer") (boolean true) no_member))

abbrev encode_detailed :
    Text → Text → Option Text → Option Text → Option Text → Option Value → Option Text
encode_detailed amount currency (some recipient) none none (some details) =
    some (pack amount (pack currency recipient))
encode_detailed _ _ _ _ _ _ = none

abbrev with_details : Option ChargeRequest → Option ChargeRequest
with_details none = none
with_details (some r) = some (record r { method_details = some sorted_details })

abbrev pub sorting_codec : Codec
sorting_codec = record codec {
  encode_charge = λ r.
      encode_detailed r.amount r.currency r.recipient r.description r.external_id r.method_details;
  decode_charge = λ s. with_details (decode_fields s);
  decode_details =
      λ v. some (record { chain_id = none; fee_payer = none; memo = none; splits = none });
}
