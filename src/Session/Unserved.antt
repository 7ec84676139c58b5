-- ===== src/Session/Unserved.antt =====
-- What src/protocol/methods/tempo/session_method.rs refuses on a channel that carries the closing mark.
use mpp_rs.Prelude.{ℕ, ◌≡◌, ◌≢◌, refl, String, true, Option, some, arith}
use mpp_rs.Error.{Result, ok, err, channel_closed}
use mpp_rs.Voucher.{Address}
use mpp_rs.Session.Types.{ChannelState, TempoSessionMethodDetails, VoucherPayload, Receipt}
use mpp_rs.Session.Updates.{deduct_update}
use mpp_rs.Session.Store.{Channels, World, run}
use mpp_rs.Session.Externs.{Externs}
use mpp_rs.Session.Method.{SessionMethod, handle_close, handle_voucher, deduct_from_channel}
use mpp_rs.Session.Run.{known-update_err}
use mpp_rs.Session.Vouchers.{Outcome, handle_voucher-Outcome}
use mpp_rs.Session.Closeable.{CloseOutcome}
use mpp_rs.Session.Closing.{handle_close-Outcome}

-- A channel with the mark serves nobody: deductions, vouchers and closes.
deduct_update_marked :
    (amount : ℕ) (c : ChannelState) (o : Option ChannelState)
    → o ≡ some c
    → c.closing ≡ true
    → deduct_update amount o ≡ err channel_closed
unfolding deduct_update
deduct_update_marked amount c o stored shut = ground arith

deduct_marked :
    (k : String) (c : ChannelState) (s : Channels) (w : World) (amount : ℕ)
    → s k ≡ some c
    → c.closing ≡ true
    → run w (deduct_from_channel k amount) s ≡ (err channel_closed, s)
unfolding deduct_from_channel
deduct_marked k c s w amount stored shut =
    known-update_err w (λ r. r ≡ (err channel_closed, s)) k (deduct_update amount) _ s
      (deduct_update_marked amount c (s k) stored shut) refl

module _ (x : Externs) (m : SessionMethod) (details : TempoSessionMethodDetails)
    (payee token : Address) where
  voucher_marked :
      (p : VoucherPayload) (c : ChannelState) (w : World) (s : Channels) (r : Receipt)
      → s p.channel_id ≡ some c
      → c.closing ≡ true
      → (run w (handle_voucher x m p details payee token) s).0 ≢ ok r
  voucher_marked p c w s r stored shut e =
      by_end (run w (handle_voucher x m p details payee token) s) e
        (handle_voucher-Outcome x m p details payee token w s)
    where
      by_end :
          (end : Result Receipt × Channels)
          → end.0 ≡ ok r
          → Outcome x m p details payee token w s end
          → ⊥
      by_end (ok r', t) e' h = cc (h.stored, h.usable.1)
      by_end (err _, t) e' h = cc

  close_marked :
      (p : VoucherPayload) (c : ChannelState) (w : World) (s : Channels) (r : Receipt)
      → s p.channel_id ≡ some c
      → c.closing ≡ true
      → (run w (handle_close x m p details payee token) s).0 ≢ ok r
  close_marked p c w s r stored shut e =
      by_end (run w (handle_close x m p details payee token) s) e
        (handle_close-Outcome x m p details payee token w s)
    where
      by_end :
          (end : Result Receipt × Channels)
          → end.0 ≡ ok r
          → CloseOutcome x m p details payee token w s end
          → ⊥
      by_end (ok r', t) e' h = cc (h.passed.stored, h.passed.usable.1)
      by_end (err _, t) e' h = cc

-- No request on the channel of this key succeeds, at any time, whatever the chain answers.
pub record IsUnserved (x : Externs) (m : SessionMethod) (k : String) (s : Channels) : Type 0 where
  pub deduction : (w : World) (n : ℕ) → run w (deduct_from_channel k n) s ≡ (err channel_closed, s)
  pub voucher :
      (w : World) (p : VoucherPayload) (details : TempoSessionMethodDetails) (payee token : Address)
      (r : Receipt)
      → p.channel_id ≡ k
      → (run w (handle_voucher x m p details payee token) s).0 ≢ ok r
  pub close :
      (w : World) (p : VoucherPayload) (details : TempoSessionMethodDetails) (payee token : Address)
      (r : Receipt)
      → p.channel_id ≡ k
      → (run w (handle_close x m p details payee token) s).0 ≢ ok r

pub marked-IsUnserved :
    (x : Externs) (m : SessionMethod) (k : String) (c : ChannelState) (s : Channels)
    → s k ≡ some c
    → c.closing ≡ true
    → IsUnserved x m k s
marked-IsUnserved x m k c s stored shut = record {
  deduction = λ w n. deduct_marked k c s w n stored shut;
  voucher = λ w p details payee token r e.
      voucher_marked x m details payee token p c w s r (rw e stored) shut;
  close = λ w p details payee token r e.
      close_marked x m details payee token p c w s r (rw e stored) shut;
}
