-- ===== src/Session/Tests.antt =====
-- A channel of 100 units with a voucher of 40: runs of the session method, and its theorems on it.
use mpp_rs.Prelude.{
  ℕ, ◌≡◌, ◌≢◌, refl, String, false, none, some, List, [], ◌∷◌, All, parse_u128, arith,
}
use mpp_rs.Error.{Result, ok, err, new, network_error}
use mpp_rs.Voucher.{Address, B256, verify_voucher}
use mpp_rs.Session.Types.{
  ChannelState, OnChainChannel, TempoSessionMethodDetails, VoucherPayload, Receipt, voucher,
}
use mpp_rs.Session.Updates.{refresh_update, accept_update}
use mpp_rs.Session.Task.{
  Call, send_raw_transaction, get_receipt, get_channel, get_transaction_count, get_gas_price, ◌>>=◌,
}
use mpp_rs.Session.Store.{Channels, World, Holds, empty, insert, store_result-Holds, run}
use mpp_rs.Session.Issues.{IsTypedResult, IsTypedWorld}
use mpp_rs.Session.Externs.{Externs}
use mpp_rs.Session.Method.{
  SessionMethod, effective_signer, handle_voucher, handle_close, u128_or_invalid, parse_channel_id,
  parse_signature, resolve_escrow, resolve_chain_id, resolve_min_delta, verify_and_accept_voucher,
}
use mpp_rs.Session.Server.{Request, session, deduction, IsTypedRequest, after}
use mpp_rs.Session.Solvency.{IsSolvent, after-IsSolvent}
use mpp_rs.Session.Progress.{IsLater, after-IsLater}
use mpp_rs.Session.Authentic.{AgreesOnSigner, IsAuthentic, after-IsAuthentic}
use mpp_rs.Session.Vouchers.{Outcome, handle_voucher-Outcome}
use mpp_rs.Session.Closeable.{CloseOutcome, IsCloseable}
use mpp_rs.Session.Closing.{handle_close-Outcome}
use mpp_rs.Session.Unserved.{IsUnserved}
use mpp_rs.Session.Stranding.{unsent_close_strands}
use mpp_rs.Session.Replay.{voucher_once}

-- Any signature is the signer 9's, and any text is the number 7.
abbrev toy : Externs
toy = record {
  parse_b256 = λ s. some 7;
  address_of_str = λ s. some 7;
  hex_decode = λ s. some (1 ∷ 2 ∷ []);
  bytes_of_str = λ s. some (5 ∷ []);
  format_address = λ a. "0x7";
  tempo_tx_type_id = 0x76;
  rlp_decode = λ b. none;
  recover_signer = λ t. none;
  open_selector = 1 ∷ 2 ∷ 3 ∷ 4 ∷ [];
  decode_open = λ b. none;
  keccak_of_params = λ p. 7;
  recover = λ e c i a s. some 9;
  sign_close = λ a t. some (6 ∷ []);
  now = "2026-01-01";
}

abbrev method : SessionMethod
method = record {
  config = record { escrow_contract = 7; chain_id = 42431; min_voucher_delta = 0 };
  close_signer = some 3;
}

abbrev details : TempoSessionMethodDetails
details = record {
  escrow_contract = "0x7";
  channel_id = none;
  min_voucher_delta = some "5";
  chain_id = none;
  fee_payer = none;
  operator = none;
  session_protocol = none;
}

abbrev channel : ChannelState
channel = record {
  channel_id = "c";
  chain_id = 42431;
  escrow_contract = 7;
  payer = 9;
  payee = 7;
  token = 7;
  authorized_signer = 9;
  deposit = 100;
  settled_on_chain = 0;
  highest_voucher_amount = 40;
  highest_voucher_signature = none;
  spent = 10;
  units = 1;
  finalized = false;
  closing = false;
  close_requested_at = 0;
  created_at = "2026-01-01";
}

abbrev escrowed : OnChainChannel
escrowed = record {
  payer = 9;
  payee = 7;
  token = 7;
  authorized_signer = 0;
  deposit = 100;
  settled = 0;
  close_requested_at = 0;
  finalized = false;
}

abbrev store : Channels
store = insert "c" channel empty

-- A chain that knows the channel and sends nothing.
abbrev chain : World
chain (send_raw_transaction tx) = err new
chain (get_receipt pending) = err new
chain (get_channel escrow id) = ok escrowed
chain (get_transaction_count a) = err new
chain get_gas_price = ok 1

abbrev payload : String → VoucherPayload
payload amount = record {
  channel_id = "c";
  descriptor = none;
  cumulative_amount = amount;
  signature = "0x01";
}

abbrev receipt : Receipt
receipt = record { method = "tempo"; reference = "c" }

voucher_runs :
    (run chain (handle_voucher toy method (payload "60") details 7 7) store).0
    ≡ ok (record { method = "tempo"; reference = "c" })
unfolding handle_voucher ◌>>=◌ run u128_or_invalid parse_u128 parse_channel_id parse_signature
    resolve_escrow resolve_chain_id resolve_min_delta verify_and_accept_voucher verify_voucher
    refresh_update accept_update
voucher_runs = refl

chain-IsTypedWorld : IsTypedWorld chain
chain-IsTypedWorld = record { at = typed }
  where
    typed : (c : Call) → IsTypedResult c (chain c)
    typed (send_raw_transaction tx) = tt
    typed (get_receipt pending) = tt
    typed (get_channel escrow id) = (omega arith, omega arith)
    typed (get_transaction_count a) = tt
    typed get_gas_price = tt

store-IsSolvent : Holds IsSolvent store
store-IsSolvent =
    store_result-Holds IsSolvent "c" (ok (some channel)) empty (omega arith) (λ k s e. cc)

-- The signer of every channel.
abbrev signer_of : B256 → Address
signer_of id = 9

store-IsAuthentic : Holds (IsAuthentic toy signer_of) store
store-IsAuthentic =
    store_result-Holds (IsAuthentic toy signer_of) "c" (ok (some channel)) empty
      ((λ id parsed. refl), (λ id parsed sig e. cc)) (λ k s e. cc)

escrowed_signer :
    (r : OnChainChannel)
    → ◌≡◌ {A = Result OnChainChannel} (ok escrowed) (ok r)
    → effective_signer r ≡ 9
unfolding effective_signer
escrowed_signer r e = let same : escrowed ≡ r = cc in rw (← same) refl

chain-AgreesOnSigner : AgreesOnSigner signer_of chain
chain-AgreesOnSigner = record { at = λ escrow id r e. escrowed_signer r e }

-- A voucher request and a deduction, in flight together; the deduction moves between the steps of the
-- voucher.
abbrev requests : List Request
requests =
    session
      (record { method = "tempo"; intent = "session"; payload = some (voucher (payload "60")) })
      (record {
        amount = "5";
        unit_type = none;
        currency = "0x7";
        decimals = none;
        recipient = some "0x7";
        suggested_deposit = none;
        method_details = some details;
      })
    ∷ deduction "c" 25
    ∷ []

abbrev moves : List (ℕ × World)
moves = (0, chain) ∷ (1, chain) ∷ (0, chain) ∷ (0, chain) ∷ (0, chain) ∷ []

moves-IsTyped : All (λ (move : ℕ × World). IsTypedWorld move.1) moves
moves-IsTyped = let c = chain-IsTypedWorld in (c, (c, (c, (c, (c, tt)))))

requests-IsTyped : All IsTypedRequest requests
requests-IsTyped = (tt, (omega arith, tt))

after-IsSolvent_example : Holds IsSolvent (after toy method moves requests store)
after-IsSolvent_example =
    after-IsSolvent toy method moves requests store moves-IsTyped requests-IsTyped store-IsSolvent

after-IsLater_example : IsLater store (after toy method moves requests store)
after-IsLater_example =
    after-IsLater toy method moves requests store moves-IsTyped requests-IsTyped store-IsSolvent

moves-AgreesOnSigner :
    All (λ (move : ℕ × World). IsTypedWorld move.1 × AgreesOnSigner signer_of move.1) moves
moves-AgreesOnSigner =
    let c : IsTypedWorld chain × AgreesOnSigner signer_of chain =
      (chain-IsTypedWorld, chain-AgreesOnSigner) in
    (c, (c, (c, (c, (c, tt)))))

after-IsAuthentic_example :
    Holds (IsAuthentic toy signer_of) (after toy method moves requests store)
after-IsAuthentic_example =
    after-IsAuthentic toy signer_of method moves requests store moves-AgreesOnSigner
      requests-IsTyped store-IsAuthentic

handle_voucher-Outcome_example :
    Outcome toy method
      (payload "60")
      details
      7
      7
      chain
      store
      (run chain (handle_voucher toy method (payload "60") details 7 7) store)
handle_voucher-Outcome_example =
    handle_voucher-Outcome toy method (payload "60") details 7 7 chain store

handle_close-Outcome_example :
    CloseOutcome toy method
      (payload "60")
      details
      7
      7
      chain
      store
      (run chain (handle_close toy method (payload "60") details 7 7) store)
handle_close-Outcome_example =
    handle_close-Outcome toy method (payload "60") details 7 7 chain store

payload-IsCloseable :
    IsCloseable toy method (payload "60") details 7 7 chain store channel escrowed 60 (1 ∷ 2 ∷ [])
unfolding u128_or_invalid parse_u128 parse_channel_id parse_signature resolve_escrow
    resolve_chain_id verify_voucher
payload-IsCloseable = record {
  escrow = 7;
  id = 7;
  stored = refl;
  parties = (refl, refl);
  usable = (refl, refl);
  amount_parsed = refl;
  parsed = refl;
  resolved = refl;
  answered = refl;
  live = refl;
  bounds = omega arith;
  sig_parsed = refl;
  verified = refl;
}

unsent_close_strands_example :
    let (r, end) = run chain (handle_close toy method (payload "60") details 7 7) store in
    (r ≡ err network_error) × IsUnserved toy method "c" end
unsent_close_strands_example =
    unsent_close_strands toy method (payload "60") details 7 7 chain store channel escrowed 60
      (1 ∷ 2 ∷ []) 3 new payload-IsCloseable refl refl

voucher_once_example :
    (run chain (handle_voucher toy method (payload "60") details 7 7) (
      after toy method moves requests
        (run chain (handle_voucher toy method (payload "60") details 7 7) store).1)).0
    ≢ ok receipt
voucher_once_example =
    voucher_once toy method (payload "60") (payload "60") details details 7 7 7 7 chain chain store
      receipt receipt moves requests store-IsSolvent chain-IsTypedWorld moves-IsTyped
      requests-IsTyped voucher_runs refl refl
