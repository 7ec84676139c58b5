-- ===== src/Session/Method.antt =====
-- `SessionMethod` of src/protocol/methods/tempo/session_method.rs: how a session credential is
-- verified. `Resolve` has the parsers and the request's defaults, `Binding` the check of an open
-- transaction, `Accept` the checks of an incremental voucher, `Close` the close, `Handlers` the other
-- actions, their dispatch and the deduction.
mod Resolve
mod Binding
mod Accept
mod Close
mod Handlers
pub use Resolve.{SessionMethod}
pub use Accept.{Terms, same_signature}
pub use Handlers.{dispatch}
unfoldable pub use Resolve.{
  parse_channel_id, parse_signature, parse_address, resolve_method_details, resolve_escrow,
  resolve_chain_id, resolve_min_delta, u128_or_invalid,
}
pub use Binding.{strip_type_byte, targets}
unfoldable pub use Binding.{find_open_call, verify_open_channel_id_binding}
unfoldable pub use Accept.{
  check_stale_voucher, accept_higher_voucher, verify_and_accept_voucher, voucher_is_valid,
}
unfoldable pub use Close.{submit_close, close_tail, handle_close}
unfoldable pub use Handlers.{
  effective_signer, handle_open, handle_top_up, handle_voucher, verify_session, deduct_from_channel,
}
unfoldable pub use Resolve.{check_parties}
unfoldable pub use Close.{close_hash}
