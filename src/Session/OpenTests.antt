-- ===== src/Session/OpenTests.antt =====
-- A transaction of one call that opens a channel, a top-up of that channel, and the theorems on them.
use mpp_rs.Prelude.{ℕ, ◌+◌, ◌≡◌, refl, true, false, none, some, [], ◌∷◌, parse_u128}
use mpp_rs.Error.{ok, err, new}
use mpp_rs.Voucher.{bytes_eq, verify_voucher}
use mpp_rs.Session.Types.{TempoSessionMethodDetails, OpenPayload, TopUpPayload}
use mpp_rs.Session.Updates.{open_update, top_up_update}
use mpp_rs.Session.Task.{
  send_raw_transaction, get_receipt, get_channel, get_transaction_count, get_gas_price, ◌>>=◌,
}
use mpp_rs.Session.Store.{Channels, World, empty, run}
use mpp_rs.Session.Externs.{Externs}
use mpp_rs.Session.Method.{
  SessionMethod, find_open_call, verify_open_channel_id_binding, handle_open, handle_top_up,
  check_parties, effective_signer, u128_or_invalid, parse_channel_id, parse_signature,
  resolve_escrow, resolve_chain_id,
}
use mpp_rs.Session.Binding.{IsBound, verify_open_channel_id_binding-IsBound}
use mpp_rs.Session.Opened.{OpenOutcome, handle_open-Outcome}
use mpp_rs.Session.ToppedUp.{TopUpOutcome, handle_top_up-Outcome}

-- The sender 9 opens a channel to 7 in the token 8; its id is the sender's number and the chain's.
abbrev opening : Externs
opening = record {
  parse_b256 = λ s. some 42440;
  address_of_str = λ s. some 5;
  hex_decode = λ s. some (1 ∷ 2 ∷ []);
  bytes_of_str = λ s. some (0x76 ∷ 0 ∷ []);
  format_address = λ a. "0x7";
  tempo_tx_type_id = 0x76;
  rlp_decode = λ b.
      some
        (record { calls = record { to = some 5; input = 1 ∷ 2 ∷ 3 ∷ 4 ∷ b } ∷ []; signature = [] });
  recover_signer = λ t. some 9;
  open_selector = 1 ∷ 2 ∷ 3 ∷ 4 ∷ [];
  decode_open =
      λ b. some (record { payee = 7; token = 8; deposit = 100; salt = 0; authorized_signer = 0 });
  keccak_of_params = λ p. p.payer + p.chain_id;
  recover = λ e c i a s. some 9;
  sign_close = λ a t. none;
  now = "2026-01-01";
}

binding-run : verify_open_channel_id_binding opening (0x76 ∷ 0 ∷ []) 42440 5 42431 7 8 ≡ ok tt
unfolding verify_open_channel_id_binding find_open_call bytes_eq
binding-run = refl

verify_open_channel_id_binding-IsBound_example : IsBound opening (0x76 ∷ 0 ∷ []) 42440 5 42431 7 8
verify_open_channel_id_binding-IsBound_example =
    verify_open_channel_id_binding-IsBound opening (0x76 ∷ 0 ∷ []) 42440 5 42431 7 8 binding-run

abbrev server : SessionMethod
server = record {
  config = record { escrow_contract = 5; chain_id = 42431; min_voucher_delta = 0 };
  close_signer = none;
}

abbrev defaults : TempoSessionMethodDetails
defaults = record {
  escrow_contract = "0x5";
  channel_id = none;
  min_voucher_delta = none;
  chain_id = none;
  fee_payer = none;
  operator = none;
  session_protocol = none;
}

abbrev open_payload : OpenPayload
open_payload = record {
  payload_type = "transaction";
  channel_id = "c";
  transaction = "0x7600";
  descriptor = none;
  authorized_signer = none;
  cumulative_amount = "40";
  signature = "0x0102";
}

abbrev top_up_payload : TopUpPayload
top_up_payload = record {
  payload_type = "transaction";
  channel_id = "c";
  transaction = "0x7600";
  descriptor = none;
  additional_deposit = "50";
}

-- A chain on which the channel has the given deposit.
abbrev funded : ℕ → World
funded deposit (send_raw_transaction tx) = ok "h"
funded deposit (get_receipt pending) = ok (record { status = true; transaction_hash = "h" })
funded deposit (get_channel escrow id) = ok (record {
  payer = 9;
  payee = 7;
  token = 8;
  authorized_signer = 0;
  deposit = deposit;
  settled = 0;
  close_requested_at = 0;
  finalized = false;
})
funded deposit (get_transaction_count a) = err new
funded deposit get_gas_price = ok 1

-- The store after the open.
abbrev opened_store : Channels
opened_store = (run (funded 100) (handle_open opening server open_payload defaults 7 8) empty).1

open_runs :
    (run (funded 100) (handle_open opening server open_payload defaults 7 8) empty).0
    ≡ ok (record { method = "tempo"; reference = "h" })
unfolding handle_open run verify_open_channel_id_binding find_open_call bytes_eq u128_or_invalid
    parse_u128 parse_channel_id parse_signature resolve_escrow resolve_chain_id effective_signer
    verify_voucher open_update check_parties ◌>>=◌
open_runs = refl

top_up_runs :
    (run (funded 150) (handle_top_up opening server top_up_payload defaults 7 8) opened_store).0
    ≡ ok (record { method = "tempo"; reference = "c" })
unfolding handle_top_up handle_open run verify_open_channel_id_binding find_open_call bytes_eq
    u128_or_invalid parse_u128 parse_channel_id parse_signature resolve_escrow resolve_chain_id
    effective_signer verify_voucher open_update top_up_update check_parties ◌>>=◌
top_up_runs = refl

handle_open-Outcome_example :
    OpenOutcome opening server open_payload defaults 7 8
      (funded 100)
      empty
      (run (funded 100) (handle_open opening server open_payload defaults 7 8) empty)
handle_open-Outcome_example =
    handle_open-Outcome opening server open_payload defaults 7 8 (funded 100) empty

handle_top_up-Outcome_example :
    TopUpOutcome opening server top_up_payload defaults 7 8
      (funded 150)
      opened_store
      (run (funded 150) (handle_top_up opening server top_up_payload defaults 7 8) opened_store)
handle_top_up-Outcome_example =
    handle_top_up-Outcome opening server top_up_payload defaults 7 8 (funded 150) opened_store
