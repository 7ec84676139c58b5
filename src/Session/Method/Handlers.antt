-- ===== src/Session/Method/Handlers.antt =====
-- The handlers of `open`, `topUp` and `voucher`, the dispatch of `verify_session`, and the deduction
-- that the metered endpoints make.
use mpp_rs.Prelude.{ℕ, String, not, ltb, leb, ◌==◌, if◌then◌else◌, str_eq}
use mpp_rs.Error.{
  new, network_error, transaction_failed, channel_closed, channel_not_found, credential_mismatch,
  invalid_payload, invalid_signature, amount_exceeds_deposit,
}
use mpp_rs.Voucher.{Address, verify_voucher}
use mpp_rs.Session.Types.{
  ChannelState, OnChainChannel, TempoSessionMethodDetails, OpenPayload, TopUpPayload,
  VoucherPayload, SessionCredentialPayload, open_channel, top_up, voucher, close, SessionRequest,
  PaymentCredential, Receipt, method_name, intent_session,
}
use mpp_rs.Session.Updates.{deduct_update, open_update, top_up_update, refresh_update}
use mpp_rs.Session.Task.{
  Task, ret, send_raw_transaction, get_receipt, get_on_chain_channel, ◌>>=◌, ◌>>◌, lift,
  some_or_fail, fail_if, get_channel_state, update_channel, ask,
}
use mpp_rs.Session.Externs.{Externs}
use mpp_rs.Session.Method.Resolve.{
  SessionMethod, parse_channel_id, parse_signature, parse_address, resolve_method_details,
  resolve_escrow, resolve_chain_id, resolve_min_delta, u128_or_invalid, unwrap_or, check_parties,
}
use mpp_rs.Session.Method.Binding.{verify_open_channel_id_binding}
use mpp_rs.Session.Method.Accept.{verify_and_accept_voucher}
use mpp_rs.Session.Method.Close.{handle_close}

unfoldable pub deduct_from_channel : String → ℕ → Task ChannelState
deduct_from_channel channel_id amount = do
  result ← update_channel channel_id (deduct_update amount)
  some_or_fail result channel_not_found

-- The zero address stands for the payer.
unfoldable pub effective_signer : OnChainChannel → Address
effective_signer c = if c.authorized_signer == 0 then c.payer else c.authorized_signer

module _ (x : Externs) (m : SessionMethod) where
  unfoldable pub handle_open :
      OpenPayload → TempoSessionMethodDetails → Address → Address → Task Receipt
  unfolding check_parties effective_signer
  handle_open p details expected_payee expected_token = do
    channel_id ← lift (parse_channel_id x p.channel_id)
    escrow ← lift (resolve_escrow x details)
    let chain_id = resolve_chain_id m details
    tx_bytes ← some_or_fail (x.bytes_of_str p.transaction) invalid_payload
    lift (
        verify_open_channel_id_binding x tx_bytes channel_id escrow chain_id expected_payee
          expected_token)
    pending ← ask (send_raw_transaction tx_bytes) network_error
    tx_receipt ← ask (get_receipt pending) network_error
    fail_if (not tx_receipt.status) transaction_failed
    on_chain ← get_on_chain_channel escrow channel_id
    check_parties on_chain.payee on_chain.token expected_payee expected_token
    fail_if (on_chain.deposit == 0) channel_not_found
    fail_if on_chain.finalized channel_closed
    fail_if (not (on_chain.close_requested_at == 0)) channel_closed
    let authorized_signer = effective_signer on_chain
    cumulative_amount ← lift (u128_or_invalid p.cumulative_amount)
    fail_if (ltb on_chain.deposit cumulative_amount) amount_exceeds_deposit
    fail_if (ltb cumulative_amount on_chain.settled) new
    sig_bytes ← lift (parse_signature x p.signature)
    fail_if
        (not (
          verify_voucher x.recover escrow chain_id channel_id cumulative_amount sig_bytes
            authorized_signer))
        invalid_signature
    updated ← update_channel p.channel_id (
        open_update (record {
          channel_id = p.channel_id;
          chain_id = chain_id;
          escrow = escrow;
          on_chain = on_chain;
          authorized_signer = authorized_signer;
          cumulative_amount = cumulative_amount;
          sig_bytes = sig_bytes;
          now = x.now;
        }))
    state ← some_or_fail updated new
    ret (record { method = method_name; reference = tx_receipt.transaction_hash })

  unfoldable pub handle_top_up :
      TopUpPayload → TempoSessionMethodDetails → Address → Address → Task Receipt
  unfolding check_parties
  handle_top_up p details expected_payee expected_token = do
    stored ← get_channel_state p.channel_id
    channel ← some_or_fail stored channel_not_found
    check_parties channel.payee channel.token expected_payee expected_token
    channel_id ← lift (parse_channel_id x p.channel_id)
    escrow ← lift (resolve_escrow x details)
    tx_bytes ← some_or_fail (x.bytes_of_str p.transaction) invalid_payload
    pending ← ask (send_raw_transaction tx_bytes) network_error
    tx_receipt ← ask (get_receipt pending) network_error
    fail_if (not tx_receipt.status) transaction_failed
    on_chain ← get_on_chain_channel escrow channel_id
    fail_if (leb on_chain.deposit channel.deposit) new
    updated ← update_channel p.channel_id (top_up_update on_chain)
    let state = unwrap_or updated channel
    ret (record { method = method_name; reference = state.channel_id })

  unfoldable pub handle_voucher :
      VoucherPayload → TempoSessionMethodDetails → Address → Address → Task Receipt
  unfolding check_parties
  handle_voucher p details expected_payee expected_token = do
    stored ← get_channel_state p.channel_id
    channel ← some_or_fail stored channel_not_found
    check_parties channel.payee channel.token expected_payee expected_token
    fail_if channel.finalized channel_closed
    fail_if channel.closing channel_closed
    cumulative_amount ← lift (u128_or_invalid p.cumulative_amount)
    escrow ← lift (resolve_escrow x details)
    let chain_id = resolve_chain_id m details
    fail_if (not (channel.chain_id == chain_id)) credential_mismatch
    fail_if (not (channel.escrow_contract == escrow)) credential_mismatch
    let min_delta = resolve_min_delta m details
    channel_id ← lift (parse_channel_id x p.channel_id)
    on_chain ← get_on_chain_channel escrow channel_id
    check_parties on_chain.payee on_chain.token expected_payee expected_token
    updated ← update_channel p.channel_id (refresh_update on_chain)
    refreshed ← some_or_fail updated channel_not_found
    verify_and_accept_voucher x
        (record {
          channel_id_str = p.channel_id;
          cumulative_amount = cumulative_amount;
          signature_str = p.signature;
          escrow = escrow;
          chain_id = chain_id;
          min_delta = min_delta;
        })
        refreshed refreshed.deposit refreshed.settled_on_chain refreshed.finalized
        refreshed.close_requested_at

  abbrev pub dispatch :
      SessionCredentialPayload → TempoSessionMethodDetails → Address → Address → Task Receipt
  dispatch (open_channel p) details payee token = handle_open p details payee token
  dispatch (top_up p) details payee token = handle_top_up p details payee token
  dispatch (voucher p) details payee token = handle_voucher p details payee token
  dispatch (close p) details payee token = handle_close x m p details payee token

  unfoldable pub verify_session : PaymentCredential → SessionRequest → Task Receipt
  verify_session credential request = do
    fail_if (not (str_eq credential.method method_name)) credential_mismatch
    fail_if (not (str_eq credential.intent intent_session)) credential_mismatch
    details ← lift (resolve_method_details x m request)
    recipient ← some_or_fail request.recipient invalid_payload
    expected_payee ← lift (parse_address x recipient)
    expected_token ← lift (parse_address x request.currency)
    payload ← some_or_fail credential.payload invalid_payload
    dispatch payload details expected_payee expected_token
