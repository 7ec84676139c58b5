-- ===== src/Session/Updates.antt =====
-- The functions that session_method.rs hands to `update_channel`, one for each call, with what their
-- closures capture as arguments, and `deduct_from_channel`'s.
use mpp_rs.Prelude.{
  ℕ, ◌-◌, max, String, true, false, Option, none, some, ltb, leb, add_u64, add_u128, if◌then◌else◌,
}
use mpp_rs.Error.{
  Result, ok, err, new, channel_not_found, channel_closed, insufficient_balance,
  amount_exceeds_deposit, ◌>>=◌, ok_or,
}
use mpp_rs.Voucher.{Address, Bytes}
use mpp_rs.Session.Types.{ChannelState, OnChainChannel}

abbrev pub Updater : Type 0
Updater = Option ChannelState → Result (Option ChannelState)

-- On `u128` and on ℕ alike, `saturating_sub` stops at 0.
unfoldable pub deduct_update : ℕ → Updater
deduct_update amount current = do
  state ← ok_or current channel_not_found
  if state.finalized
      then err channel_closed
      else if state.closing
      then err channel_closed
      else let available = state.highest_voucher_amount - state.spent in
        if leb amount available
        then ok (
            some
              (record state { spent = add_u128 state.spent amount; units = add_u64 state.units 1 }))
        else err insufficient_balance

-- What `handle_open` has at hand when it updates the store.
pub record Opening : Type 0 where
  pub channel_id : String
  pub chain_id : ℕ
  pub escrow : Address
  pub on_chain : OnChainChannel
  pub authorized_signer : Address
  pub cumulative_amount : ℕ
  pub sig_bytes : Bytes
  pub now : String

abbrev pub reopened : Opening → ChannelState → ChannelState
reopened o existing =
    let settled_on_chain = max o.on_chain.settled existing.settled_on_chain in
    let spent = max settled_on_chain existing.spent in
    if ltb existing.highest_voucher_amount o.cumulative_amount
    then record existing {
      deposit = o.on_chain.deposit;
      settled_on_chain = settled_on_chain;
      spent = spent;
      highest_voucher_amount = o.cumulative_amount;
      highest_voucher_signature = some o.sig_bytes;
      authorized_signer = o.authorized_signer;
      close_requested_at = o.on_chain.close_requested_at;
    }
    else record existing {
      deposit = o.on_chain.deposit;
      settled_on_chain = settled_on_chain;
      spent = spent;
      authorized_signer = o.authorized_signer;
      close_requested_at = o.on_chain.close_requested_at;
    }

abbrev pub opened : Opening → ChannelState
opened o = record {
  channel_id = o.channel_id;
  chain_id = o.chain_id;
  escrow_contract = o.escrow;
  payer = o.on_chain.payer;
  payee = o.on_chain.payee;
  token = o.on_chain.token;
  authorized_signer = o.authorized_signer;
  deposit = o.on_chain.deposit;
  settled_on_chain = o.on_chain.settled;
  highest_voucher_amount = o.cumulative_amount;
  highest_voucher_signature = some o.sig_bytes;
  spent = o.on_chain.settled;
  units = 0;
  finalized = false;
  closing = false;
  close_requested_at = o.on_chain.close_requested_at;
  created_at = o.now;
}

unfoldable pub open_update : Opening → Updater
open_update o (some existing) = ok (some (reopened o existing))
open_update o none = ok (some (opened o))

unfoldable pub top_up_update : OnChainChannel → Updater
top_up_update on_chain current = do
  state ← ok_or current channel_not_found
  let settled_on_chain = max on_chain.settled state.settled_on_chain
  let spent = max settled_on_chain state.spent
  ok (
      some (record state {
        deposit = on_chain.deposit;
        settled_on_chain = settled_on_chain;
        spent = spent;
        close_requested_at = on_chain.close_requested_at;
      }))

-- The refresh in `handle_voucher`, before the voucher is checked.
abbrev pub refreshed : OnChainChannel → ChannelState → ChannelState
refreshed on_chain state =
    let settled_on_chain = max on_chain.settled state.settled_on_chain in
    let spent = max settled_on_chain state.spent in
    record state {
      deposit = on_chain.deposit;
      settled_on_chain = settled_on_chain;
      spent = spent;
      finalized = on_chain.finalized;
      close_requested_at = on_chain.close_requested_at;
    }

unfoldable pub refresh_update : OnChainChannel → Updater
refresh_update on_chain current = do
  state ← ok_or current channel_not_found
  ok (some (refreshed on_chain state))

-- The end of `verify_and_accept_voucher`.
unfoldable pub accept_update : ℕ → Bytes → Updater
accept_update cumulative_amount sig_bytes current = do
  state ← ok_or current channel_not_found
  if ltb state.highest_voucher_amount cumulative_amount
      then ok (
          some (record state {
            highest_voucher_amount = cumulative_amount;
            highest_voucher_signature = some sig_bytes;
          }))
      else ok (some state)

-- The three updates of `handle_close`: the mark, its removal, the end.
unfoldable pub closing_update : Updater
closing_update current = do
  state ← ok_or current channel_not_found
  if state.finalized
      then err channel_closed
      else if state.closing
      then err channel_closed
      else ok (some (record state { closing = true }))

unfoldable pub abort_update : Updater
abort_update none = ok none
abort_update (some state) =
    if state.finalized then ok (some state) else ok (some (record state { closing = false }))

unfoldable pub finalize_update : OnChainChannel → ℕ → Bytes → Updater
finalize_update on_chain cumulative_amount sig_bytes none = ok none
finalize_update on_chain cumulative_amount sig_bytes (some state) =
    let update_voucher = ltb state.highest_voucher_amount cumulative_amount in
    ok (
      some (record state {
        deposit = on_chain.deposit;
        highest_voucher_amount =
            if update_voucher then cumulative_amount else state.highest_voucher_amount;
        highest_voucher_signature =
            if update_voucher then some sig_bytes else state.highest_voucher_signature;
        finalized = true;
        closing = false;
      }))

unfoldable pub validate_close_amount : ℕ → ℕ → ℕ → ℕ → Result (Unit {0})
validate_close_amount cumulative_amount spent on_chain_settled on_chain_deposit =
    if ltb cumulative_amount spent
    then err new
    else if leb cumulative_amount on_chain_settled
    then err new
    else if ltb on_chain_deposit cumulative_amount
    then err amount_exceeds_deposit
    else ok tt
