-- ===== src/Tempo/VerifyTests.antt =====
-- A proof credential for an amount of zero, and the theorems on it.
use mpp_rs.Prelude.{
  ◌≡◌, ◌≢◌, refl, Text, List, true, codes, none, some, [], ◌∷◌, ◌++◌, as_bytes, bytes_eq,
  strip_prefix, split_once, parse_codes, all_chars,
}
use mpp_rs.Prelude.Results.{ok}
use mpp_rs.Charge.Json.{boolean, null, get_from}
use mpp_rs.Charge.Tempo.{amount_u256}
use mpp_rs.Server.Types.{PaymentCredential}
use mpp_rs.Store.Memory.{
  MemoryStore, put_if_absent, find_key, insert_key, StoreOp, putting, apply_ops,
}
use mpp_rs.Tempo.Source.{parse_proof_source}
use mpp_rs.Tempo.Hash.{reserve, success}
use mpp_rs.Tempo.Proof.{recover_proof_signer, verify_proof, proof_fingerprint}
use mpp_rs.Tempo.Payload.{proof, payload_of, charge_chain_id}
use mpp_rs.Tempo.Broadcast.{Node, Settings}
use mpp_rs.Tempo.Verify.{
  chain_id_of, check_names, checked_payload, check_signer, checked_proof, proof_key, settle_proof,
  verify_payload, checked_credential, verify,
}
use mpp_rs.Tempo.Once.{Spends, verify_once}
use mpp_rs.Tempo.Tests.{chain, request}

-- The amount of every request is zero, the address of every text 8; the chain is 4217.
abbrev node : Node
node = record {
  chain = record chain {
    parsers = record {
      parse_amount = λ s. some 0;
      parse_address = λ s. some 8;
      hex_decode = λ s. none;
    };
  };
  contracts = record {
    approve_selector = [];
    swap_selector = [];
    decode_swap_token_in = λ input. none;
    stablecoin_dex_address = 77;
    tempo_tx_type_id = 0x76;
    rlp_decode = λ bytes. none;
  };
  prover = record {
    parse_bytes = λ s. some s;
    signature_of = λ bytes. some bytes;
    normalized_s = λ signature. signature;
    recover = λ signature hash. some 8;
    signing_hash = λ id challenge_id realm. 5;
    address_bytes = λ address. address ∷ [];
    keccak256 = λ bytes. 6;
    lower_hex = λ hash. hash ∷ [];
  };
  raw_payload =
      λ v. some (record { payload_type = proof; signature = some (codes "s"); hash = none });
  send_raw_transaction_sync = λ bytes. none;
  get_chain_id = some 4217;
  get_key = λ account key. none;
  now_secs = 0;
}

abbrev settings : Settings
settings = record {
  validate_sender = none;
  sponsor = none;
  fee_payer_policy_override = none;
  fee_payer_allowed_fee_tokens = none;
}

abbrev credential : PaymentCredential
credential = record {
  challenge = record {
    id = codes "c";
    realm = codes "api";
    method = codes "tempo";
    intent = codes "charge";
    request = codes "e30";
    expires = none;
    digest = none;
    opaque = none;
  };
  source = some (codes "did:pkh:eip155:4217:0x08");
  payload = null;
}

abbrev stored : MemoryStore
stored = (codes "mpp:proof:" ++ (6 ∷ []), codes "true") ∷ []

proof-run :
    verify node settings credential request (some []) none
    ≡ (ok (success node.chain (codes "c")), some stored, some 4217)
unfolding verify checked_credential check_names chain_id_of checked_payload payload_of amount_u256
    charge_chain_id get_from verify_payload settle_proof checked_proof check_signer verify_proof
    recover_proof_signer parse_proof_source strip_prefix split_once parse_codes all_chars
    proof_fingerprint proof_key reserve put_if_absent find_key insert_key bytes_eq as_bytes
proof-run = refl

abbrev key : Text
key = codes "mpp:proof:" ++ (6 ∷ [])

spent : Spends node settings credential request key
unfolding payload_of parse_proof_source strip_prefix split_once parse_codes all_chars
    proof_fingerprint proof_key as_bytes
spent = (
  record { payload_type = proof; signature = some (codes "s"); hash = none },
  refl,
  (
    record { payload_type = proof; content = codes "s" },
    refl,
    (
      codes "did:pkh:eip155:4217:0x08",
      refl,
      (record { address = 8; chain_id = 4217 }, refl, (6, refl, refl)),
    ),
  ),
)

abbrev between : List StoreOp
between = putting (codes "k") (boolean true) ∷ []

verify_once_example :
    verify node settings credential request (some (apply_ops node.chain.json between stored)) none
    ≢ (ok (success node.chain (codes "c")), some stored, some 4217)
verify_once_example =
    verify_once node node settings settings credential credential request request none none []
      stored (success node.chain (codes "c")) (some 4217) key node.chain.json between
      (success node.chain (codes "c")) (some stored) (some 4217) proof-run spent spent refl
