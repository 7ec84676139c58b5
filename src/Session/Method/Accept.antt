-- ===== src/Session/Method/Accept.antt =====
-- `verify_and_accept_voucher`: the checks of an incremental voucher, and its acceptance.
use mpp_rs.Prelude.{
  ℕ, ◌-◌, Bool, false, String, Option, none, some, not, ◌&&◌, ltb, leb, ◌==◌, if◌then◌else◌,
}
use mpp_rs.Error.{
  new, channel_closed, channel_not_found, amount_exceeds_deposit, invalid_signature,
  delta_too_small,
}
use mpp_rs.Voucher.{Address, Bytes, bytes_eq, verify_voucher}
use mpp_rs.Session.Types.{ChannelState, Receipt, method_name}
use mpp_rs.Session.Updates.{accept_update}
use mpp_rs.Session.Task.{Task, ret, fail, ◌>>=◌, ◌>>◌, lift, some_or_fail, fail_if, update_channel}
use mpp_rs.Session.Externs.{Externs}
use mpp_rs.Session.Method.Resolve.{parse_channel_id, parse_signature}

-- What a request says of a voucher.
pub record Terms : Type 0 where
  pub channel_id_str : String
  pub cumulative_amount : ℕ
  pub signature_str : String
  pub escrow : Address
  pub chain_id : ℕ
  pub min_delta : ℕ

abbrev pub same_signature : Option Bytes → Bytes → Bool
same_signature none sig = false
same_signature (some stored) sig = bytes_eq stored sig

module _ (x : Externs) where
  -- Both the parse of the channel's id and the check of the signature.
  unfoldable pub voucher_is_valid : Terms → Bytes → Address → Task (Unit {0})
  voucher_is_valid t sig_bytes signer = do
    channel_id ← lift (parse_channel_id x t.channel_id_str)
    fail_if
        (not (
          verify_voucher x.recover t.escrow t.chain_id channel_id t.cumulative_amount sig_bytes
            signer))
        invalid_signature

  -- A voucher that is not above the highest one: it is refused whatever its signature.
  unfoldable pub check_stale_voucher : Terms → ChannelState → Task Receipt
  unfolding bytes_eq voucher_is_valid
  check_stale_voucher t channel = do
    sig_bytes ← lift (parse_signature x t.signature_str)
    let is_exact_replay =
        same_signature channel.highest_voucher_signature sig_bytes
        && t.cumulative_amount == channel.highest_voucher_amount
    if is_exact_replay then ret tt else voucher_is_valid t sig_bytes channel.authorized_signer
    fail delta_too_small

  -- A voucher above the highest one.
  unfoldable pub accept_higher_voucher : Terms → ChannelState → Task Receipt
  accept_higher_voucher t channel = do
    fail_if (ltb (t.cumulative_amount - channel.highest_voucher_amount) t.min_delta) delta_too_small
    channel_id ← lift (parse_channel_id x t.channel_id_str)
    sig_bytes ← lift (parse_signature x t.signature_str)
    fail_if
        (not (
          verify_voucher x.recover t.escrow t.chain_id channel_id t.cumulative_amount sig_bytes
            channel.authorized_signer))
        invalid_signature
    updated ← update_channel t.channel_id_str (accept_update t.cumulative_amount sig_bytes)
    state ← some_or_fail updated channel_not_found
    ret (record { method = method_name; reference = state.channel_id })

  -- `deposit`, `settled`, `finalized` and `close_requested_at` are the channel's at its one call.
  unfoldable pub verify_and_accept_voucher : Terms → ChannelState → ℕ → ℕ → Bool → ℕ → Task Receipt
  unfolding check_stale_voucher accept_higher_voucher
  verify_and_accept_voucher t channel deposit settled finalized close_requested_at = do
    fail_if finalized channel_closed
    fail_if (not (close_requested_at == 0)) channel_closed
    fail_if (ltb t.cumulative_amount settled) new
    fail_if (ltb deposit t.cumulative_amount) amount_exceeds_deposit
    if leb t.cumulative_amount channel.highest_voucher_amount
        then check_stale_voucher t channel
        else accept_higher_voucher t channel
