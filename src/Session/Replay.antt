-- ===== src/Session/Replay.antt =====
-- A voucher pays once: `handle_voucher` of src/protocol/methods/tempo/session_method.rs refuses an amount
-- that was accepted before, whatever happened since.
use mpp_rs.Prelude.{ℕ, ◌<◌, ◌≡◌, ◌≢◌, refl, ap, ◌∙◌, some, List, All, eq_iff, arith}
use mpp_rs.Error.{Result, ok, err}
use mpp_rs.Voucher.{Address}
use mpp_rs.Session.Types.{ChannelState, TempoSessionMethodDetails, VoucherPayload, Receipt}
use mpp_rs.Session.Store.{Channels, World, Holds, run}
use mpp_rs.Session.Issues.{IsTypedWorld, run-Inv}
use mpp_rs.Session.Externs.{Externs}
use mpp_rs.Session.Method.{SessionMethod, u128_or_invalid, handle_voucher}
use mpp_rs.Session.Issued.{rules, Anyone, IsTypedWorld-IsWorld}
use mpp_rs.Session.Vocabulary.{handle_voucher-Issues}
use mpp_rs.Session.Server.{Request, IsTypedRequest, after}
use mpp_rs.Session.Solvency.{IsSolvent, keeps-IsSolvent}
use mpp_rs.Session.Progress.{IsLater, after-IsLater}
use mpp_rs.Session.Updates.{refreshed}
use mpp_rs.Session.Accepting.{with_voucher}
use mpp_rs.Session.Vouchers.{Outcome, handle_voucher-Outcome}

module _ (x : Externs) (m : SessionMethod) (details : TempoSessionMethodDetails)
    (payee token : Address) (w : World) (store : Channels) where
  -- The value that the text of an accepted voucher has is the stored amount afterwards, and above what
  -- was stored before.
  accepted_amount :
      (p : VoucherPayload) (r : Receipt) (end : Result Receipt × Channels)
      → end.0 ≡ ok r
      → Outcome x m p details payee token w store end
      → (n : ℕ) × (u128_or_invalid p.cumulative_amount ≡ ok n)
        × ((c : ChannelState) → store p.channel_id ≡ some c → c.highest_voucher_amount < n)
        × ((t : ChannelState) × (end.1 p.channel_id ≡ some t) × (t.highest_voucher_amount ≡ n))
  accepted_amount p r (err e, end) e' h = cc
  accepted_amount p r (ok r', end) e' h = (
    h.amount,
    h.amount_parsed,
    λ c stored. let same : h.before ≡ c = cc (h.stored) in rw (← same) h.passed.fresh,
    (
      with_voucher h.amount h.sig (refreshed h.on_chain h.before),
      h.left p.channel_id ∙ rw ((eq_iff p.channel_id p.channel_id).1 refl),
      refl,
    ),
  )

-- Once a voucher was accepted by a server whose channels are solvent, then after any interleaving of
-- further requests and deductions, with any answers of the chain, no voucher with the same text for
-- the amount is accepted on that channel, whatever its signature and its request's details.
pub voucher_once :
    (x : Externs) (m : SessionMethod) (p q : VoucherPayload) (d d' : TempoSessionMethodDetails)
    (payee token payee' token' : Address) (w w' : World) (store : Channels) (r r' : Receipt)
    (moves : List (ℕ × World)) (rs : List Request)
    → Holds IsSolvent store
    → IsTypedWorld w
    → All (λ (move : ℕ × World). IsTypedWorld move.1) moves
    → All IsTypedRequest rs
    → (run w (handle_voucher x m p d payee token) store).0 ≡ ok r
    → q.channel_id ≡ p.channel_id
    → q.cumulative_amount ≡ p.cumulative_amount
    → (run w'
        (handle_voucher x m q d' payee' token')
        (after x m moves rs (run w (handle_voucher x m p d payee token) store).1)).0
      ≢ ok r'
voucher_once x m p q d d' payee token payee' token' w w' store r r' moves rs solvent tw tws trs
      first same_key same_amount again =
    let end : Channels = (run w (handle_voucher x m p d payee token) store).1 in
    let (n, parsed, _, (t, at_t, is_n)) =
      accepted_amount x m d payee token w store p r
        (run w (handle_voucher x m p d payee token) store) first
        (handle_voucher-Outcome x m p d payee token w store) in
    let later : IsLater end (after x m moves rs end) = after-IsLater x m moves rs end tws trs (
      run-Inv (rules x Anyone) (keeps-IsSolvent x) (λ c h k s e. tt) w store
        (IsTypedWorld-IsWorld x w tw) (handle_voucher-Issues x Anyone m d payee token p) solvent) in
    let (u, at_u, ahead) = later p.channel_id t at_t in
    let (n', parsed', above, _) =
      accepted_amount x m d' payee' token' w' (after x m moves rs end) q r'
        (run w' (handle_voucher x m q d' payee' token') (after x m moves rs end)) again
        (handle_voucher-Outcome x m q d' payee' token' w' (after x m moves rs end)) in
    let same_n : n' ≡ n = cc (ap u128_or_invalid same_amount) in
    let low : u.highest_voucher_amount < n' = above u (rw same_key at_u) in
    absurd (omega (arith, ahead.voucher, is_n, same_n, low))
