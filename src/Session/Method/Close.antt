-- ===== src/Session/Method/Close.antt =====
-- `handle_close`: the final voucher is checked, the channel marked, the close transaction sent, and the
-- channel finalized in the store.
use mpp_rs.Prelude.{ℕ, String, Option, none, some, not}
use mpp_rs.Error.{
  Result, ok, err, network_error, channel_closed, channel_not_found, invalid_signature,
}
use mpp_rs.Voucher.{Address, B256, Bytes, verify_voucher}
use mpp_rs.Session.Types.{
  ChannelState, OnChainChannel, TempoSessionMethodDetails, VoucherPayload, Receipt, method_name,
}
use mpp_rs.Session.Updates.{closing_update, abort_update, finalize_update, validate_close_amount}
use mpp_rs.Session.Task.{
  Task, ret, fail, update, send_raw_transaction, get_receipt, get_on_chain_channel,
  get_transaction_count, get_gas_price, ◌>>=◌, ◌>>◌, lift, some_or_fail, fail_if, get_channel_state,
  update_channel, ask,
}
use mpp_rs.Session.Externs.{Externs}
use mpp_rs.Session.Method.Resolve.{
  SessionMethod, parse_channel_id, parse_signature, resolve_escrow, resolve_chain_id,
  u128_or_invalid, unwrap_or, check_parties,
}

abbrev id_of : Option ChannelState → Option String
id_of none = none
id_of (some s) = some s.channel_id

module _ (x : Externs) where
  -- The value of `close_tx_result`. Its `?` leave `handle_close`, so its value is never an error.
  unfoldable pub submit_close :
      Option Address → ℕ → Address → B256 → ℕ → Bytes → Task (Result (Option String))
  submit_close none chain_id escrow channel_id cumulative_amount sig_bytes = ret (ok none)
  submit_close (some signer) chain_id escrow channel_id cumulative_amount sig_bytes = do
    nonce ← ask (get_transaction_count signer) network_error
    gas_price ← ask get_gas_price network_error
    tx_bytes ←
        some_or_fail
          (x.sign_close signer (record {
            chain_id = chain_id;
            nonce = nonce;
            gas_limit = 2_000_000;
            max_fee_per_gas = gas_price;
            max_priority_fee_per_gas = gas_price;
            to = escrow;
            channel_id = channel_id;
            cumulative_amount = cumulative_amount;
            signature = sig_bytes;
          }))
          network_error
    pending ← ask (send_raw_transaction tx_bytes) network_error
    receipt ← ask (get_receipt pending) network_error
    ret (ok (some receipt.transaction_hash))

  -- The `match` on `close_tx_result`: an error takes the mark away and is returned.
  unfoldable pub close_hash : String → Result (Option String) → Task (Option String)
  close_hash key (ok hash) = ret hash
  close_hash key (err e) = update key abort_update (λ _. fail e)

  -- What follows the mark.
  unfoldable pub close_tail :
      SessionMethod
      → VoucherPayload
      → OnChainChannel
      → ℕ
      → Bytes
      → Address
      → B256
      → ℕ
      → ChannelState
      → Task Receipt
  unfolding submit_close close_hash
  close_tail m p on_chain cumulative_amount sig_bytes escrow channel_id chain_id channel = do
    close_tx_result ←
        submit_close m.close_signer chain_id escrow channel_id cumulative_amount sig_bytes
    close_tx_hash ← close_hash p.channel_id close_tx_result
    updated ← update_channel p.channel_id (finalize_update on_chain cumulative_amount sig_bytes)
    let reference = unwrap_or close_tx_hash (unwrap_or (id_of updated) channel.channel_id)
    ret (record { method = method_name; reference = reference })

  unfoldable pub handle_close :
      SessionMethod → VoucherPayload → TempoSessionMethodDetails → Address → Address → Task Receipt
  unfolding check_parties close_tail
  handle_close m p details expected_payee expected_token = do
    stored ← get_channel_state p.channel_id
    channel ← some_or_fail stored channel_not_found
    check_parties channel.payee channel.token expected_payee expected_token
    fail_if channel.finalized channel_closed
    cumulative_amount ← lift (u128_or_invalid p.cumulative_amount)
    channel_id ← lift (parse_channel_id x p.channel_id)
    escrow ← lift (resolve_escrow x details)
    let chain_id = resolve_chain_id m details
    on_chain ← get_on_chain_channel escrow channel_id
    fail_if on_chain.finalized channel_closed
    lift (validate_close_amount cumulative_amount channel.spent on_chain.settled on_chain.deposit)
    sig_bytes ← lift (parse_signature x p.signature)
    fail_if
        (not (
          verify_voucher x.recover escrow chain_id channel_id cumulative_amount sig_bytes
            channel.authorized_signer))
        invalid_signature
    update_channel p.channel_id closing_update
    close_tail m p on_chain cumulative_amount sig_bytes escrow channel_id chain_id channel
