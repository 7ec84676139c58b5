-- ===== src/Tempo/Tests.antt =====
-- A transaction that pays 50 units with the challenge's memo, and the theorems on it.
use mpp_rs.Prelude.{
  ℕ, ◌≡◌, refl, Text, codes, true, none, some, List, [], ◌∷◌, ◌++◌, bytes_eq, if◌then◌else◌,
}
use mpp_rs.Prelude.Results.{ok}
use mpp_rs.Transfers.{Transfer, parse_memo_bytes_in_context, get_transfers}
use mpp_rs.Charge.Json.{
  Value, boolean, string, array, object, no_element, element, no_member, member, get, get_member,
  get_from,
}
use mpp_rs.Charge.Request.{ChargeRequest}
use mpp_rs.Charge.Tempo.{
  get_request_transfers, recipient_address, amount_u256, tempo_method_details,
}
use mpp_rs.Store.Memory.{MemoryStore, put_if_absent, find_key, insert_key}
use mpp_rs.Tempo.Attribution.{
  version, anonymous, fingerprint, challenge_nonce, client_bytes, known_client, encode, is_mpp_memo,
  verify_server, verify_challenge_binding, decode, decode-encode,
}
use mpp_rs.Tempo.Claims.{claim}
use mpp_rs.Tempo.Logs.{memo, LogParsers, parse_receipt_transfer_log, parse_topics, strings_of}
use mpp_rs.Tempo.Match.{
  sender_is_allowed, log_fits, log_test, find_log, match_transfers, match_receipt_transfer_logs,
}
use mpp_rs.Tempo.Paid.{IsPaid, match_receipt_transfer_logs-IsPaid}
use mpp_rs.Tempo.Hash.{
  Chain, ChargeMethod, charge_memo, parse_hash_credential_source, is_bound,
  assert_challenge_bound_memo, expected_transfers, replay_key, checked_hash, reserve, success,
  settle, verify_hash,
}
use mpp_rs.Tempo.HashPaid.{IsPaidHash, verify_hash-IsPaidHash}

-- A hash of 32 bytes, the same for every text.
abbrev keccak256 : Text → List ℕ
keccak256 s = codes "0123456789abcdef0123456789abcdef"

abbrev bound_memo : List ℕ
bound_memo = codes "0123" ++ (1 ∷ codes "0123456789") ++ anonymous ++ codes "0123456"

decode-encode_example :
    (let encoded = encode keccak256 (codes "c") (codes "api") none in
      (verify_server keccak256 encoded (codes "api") ≡ true)
      × (verify_challenge_binding keccak256 encoded (codes "c") ≡ true)
      × (decode keccak256 encoded
          ≡ some (record {
            version = version;
            server_fingerprint = fingerprint keccak256 (codes "api");
            client_fingerprint = known_client keccak256 (client_bytes keccak256 none);
            nonce = challenge_nonce keccak256 (codes "c");
          })))
decode-encode_example = decode-encode keccak256 (λ s. refl) (codes "c") (codes "api") none

abbrev log_parsers : LogParsers
log_parsers = record {
  parse_address = λ s. some 8;
  parse_b256 = λ s.
      if bytes_eq s (codes "m") then some 2 else if bytes_eq s (codes "h") then some 77 else some 8;
  b256_bytes = λ n. bound_memo;
  from_str_radix_16 = λ s. some 50;
  transfer_event_topic = 1;
  transfer_with_memo_event_topic = 2;
}

abbrev log : Value
log = object (
    member (codes "address") (string (codes "0xc")) (
      member (codes "topics")
        (array (
          element (string (codes "m")) (
            element (string (codes "f"))
              (element (string (codes "t")) (element (string (codes "x")) no_element)))))
        (member (codes "data")
          (string (codes "0x0000000000000000000000000000000000000000000000000000000000000032"))
          no_member)))

abbrev plan : List Transfer
plan = record { amount = 50; recipient = 8; memo = none } ∷ []

logs-run :
    match_receipt_transfer_logs 8 8 none none log_parsers (log ∷ []) plan
    ≡ ok (memo bound_memo ∷ [])
unfolding match_receipt_transfer_logs match_transfers find_log log_test log_fits sender_is_allowed
    claim parse_receipt_transfer_log parse_topics strings_of get get_member bytes_eq
logs-run = refl

match_receipt_transfer_logs-IsPaid_example : IsPaid log_parsers 8 8 none none (log ∷ []) plan
match_receipt_transfer_logs-IsPaid_example =
    match_receipt_transfer_logs-IsPaid log_parsers 8 8 none none (log ∷ []) plan
      (memo bound_memo ∷ []) logs-run

abbrev pub chain : Chain
chain = record {
  log_parsers = log_parsers;
  parsers = record {
    parse_amount = λ s. some 50;
    parse_address = λ s. some 8;
    hex_decode = λ s. none;
  };
  decode_details = λ v. none;
  keccak256 = keccak256;
  format_b256 = λ n. n ∷ [];
  json = record { to_string = λ v. some (codes "true"); from_str = λ s. some (boolean true) };
  get_transaction_receipt =
      λ hash. ok (some (record { status = true; sender = 8; logs = some (log ∷ []) }));
  now_iso8601 = codes "now";
}

abbrev pub request : ChargeRequest
request = record {
  amount = codes "50";
  currency = codes "0xc";
  decimals = none;
  recipient = some (codes "0xr");
  description = none;
  external_id = none;
  method_details = none;
}

abbrev method : ChargeMethod
method = record { store = some []; validate_sender = none }

abbrev stored : MemoryStore
stored = (codes "mpp:charge:M", codes "true") ∷ []

hash-run :
    verify_hash chain method (codes "h") request none 4217 (codes "c") (codes "api")
    ≡ (ok (success chain (codes "h")), some stored)
unfolding verify_hash settle checked_hash reserve replay_key put_if_absent find_key insert_key
    parse_hash_credential_source expected_transfers get_request_transfers recipient_address
    amount_u256 tempo_method_details parse_memo_bytes_in_context get_transfers charge_memo get_from
    assert_challenge_bound_memo is_bound verify_server verify_challenge_binding is_mpp_memo
    match_receipt_transfer_logs match_transfers find_log log_test log_fits sender_is_allowed claim
    parse_receipt_transfer_log parse_topics strings_of get get_member bytes_eq
hash-run = refl

verify_hash-IsPaidHash_example :
    (hash : ℕ) × IsPaidHash chain none (codes "h") request none 4217 (codes "c") (codes "api") hash
verify_hash-IsPaidHash_example =
    verify_hash-IsPaidHash chain method (codes "h") request none 4217 (codes "c") (codes "api")
      (success chain (codes "h")) (some stored) hash-run
