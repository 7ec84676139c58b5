-- ===== src/Session/Stranding.antt =====
-- `handle_close` of src/protocol/methods/tempo/session_method.rs when the close transaction cannot be
-- sent. The code means to take the closing mark away then (`match close_tx_result`), but the `?` of each
-- provider call leaves the function before that.
use mpp_rs.Prelude.{
  ℕ, ◌≤◌, ◌<◌, ◌≡◌, refl, sym, ap, ◌∙◌, String, Bool, true, false, not, Option, none, some, eq_iff,
  arith,
}
use mpp_rs.Error.{Result, ok, err, VerificationError, network_error}
use mpp_rs.Voucher.{Address, Bytes}
use mpp_rs.Session.Types.{
  ChannelState, OnChainChannel, TempoSessionMethodDetails, VoucherPayload, Receipt,
}
use mpp_rs.Session.Updates.{closing_update, validate_close_amount}
use mpp_rs.Session.Task.{Task, get_transaction_count, get_channel}
use mpp_rs.Session.Store.{Channels, World, insert, run}
use mpp_rs.Session.Externs.{Externs}
use mpp_rs.Session.Method.{SessionMethod, resolve_chain_id, submit_close, close_tail, handle_close}
use mpp_rs.Session.Run.{
  known-lift, known-some, known-false, known-get, known-ask, known-ask_err, known-update,
  known-parties, run-part,
}
use mpp_rs.Session.Closeable.{marked, IsCloseable}
use mpp_rs.Session.Unserved.{IsUnserved, marked-IsUnserved}

closing_update_live :
    (b : ChannelState) (o : Option ChannelState)
    → o ≡ some b
    → (b.finalized ≡ false) × (b.closing ≡ false)
    → closing_update o ≡ ok (some (marked b))
unfolding closing_update
closing_update_live b o e h = rw (e, h.0, h.1)

close_bounds_ok :
    (a spent settled deposit : ℕ)
    → (spent ≤ a) × (settled < a) × (a ≤ deposit)
    → validate_close_amount a spent settled deposit ≡ ok tt
unfolding validate_close_amount
close_bounds_ok a spent settled deposit h = ground arith

is_off : {b : Bool} → b ≡ true → not b ≡ false
is_off e = rw e

-- A provider that fails at the signer's nonce, its gas price, or the submission.
module _ (x : Externs) (m : SessionMethod) (p : VoucherPayload)
    (details : TempoSessionMethodDetails) (payee token : Address) (w : World) (store : Channels)
    (before : ChannelState) (on_chain : OnChainChannel) (amount : ℕ) (sig : Bytes)
    (passed : IsCloseable x m p details payee token w store before on_chain amount sig) where
  abbrev Failed : Result Receipt × Channels → Type 0
  Failed r = r ≡ (err network_error, insert p.channel_id (marked before) store)

  unsent_from :
      (o : Option Address) (signer : Address) (e : VerificationError) (s : Channels)
      → o ≡ some signer
      → w (get_transaction_count signer) ≡ err e
      → run w (submit_close x o (resolve_chain_id m details) passed.escrow passed.id amount sig) s
        ≡ (err network_error, s)
  unfolding submit_close
  unsent_from none signer e s signs fails = cc
  unsent_from (some other) signer e s signs fails =
      let same : other ≡ signer = cc in
      let failing : w (get_transaction_count other) ≡ err e = rw same fails in
      known-ask_err w (λ r. r ≡ (err network_error, s)) (get_transaction_count other) _ _ s failing
        refl

  unsent :
      (signer : Address) (e : VerificationError)
      → m.close_signer ≡ some signer
      → w (get_transaction_count signer) ≡ err e
      → run w
          (submit_close x m.close_signer
            (resolve_chain_id m details)
            passed.escrow
            passed.id
            amount
            sig)
          (insert p.channel_id (marked before) store)
        ≡ (err network_error, insert p.channel_id (marked before) store)
  unsent signer e signs fails = unsent_from m.close_signer signer e _ signs fails

  tail_fails :
      (signer : Address) (e : VerificationError)
      → m.close_signer ≡ some signer
      → w (get_transaction_count signer) ≡ err e
      → Failed (
          run w
            (close_tail x m p on_chain amount sig passed.escrow passed.id
              (resolve_chain_id m details)
              before)
            (insert p.channel_id (marked before) store))
  unfolding close_tail
  tail_fails signer e signs fails =
      run-part w Failed task _ marks
        (λ e' t ended. by_end e' t (sym ended ∙ unsent signer e signs fails))
        (λ r t ended.
          cc (
            sym (ap (λ (q : End). q.0) ended)
            ∙ ap (λ (q : End). q.0) (unsent signer e signs fails)))
    where
      End : Type 0
      End = Result (Result (Option String)) × Channels

      marks : Channels
      marks = insert p.channel_id (marked before) store

      task : Task (Result (Option String))
      task =
          submit_close x m.close_signer (resolve_chain_id m details) passed.escrow passed.id amount
            sig

      by_end :
          (e' : VerificationError) (t : Channels)
          → ◌≡◌ {A = End} (err e', t) (err network_error, marks)
          → Failed (err e', t)
      by_end e' t same =
          let same_error : e' ≡ network_error = cc (ap (λ (q : End). q.0) same) in
          let same_store : t ≡ marks = ap (λ (q : End). q.1) same in rw (same_error, same_store)

  unsent_close_fails :
      (signer : Address) (e : VerificationError)
      → m.close_signer ≡ some signer
      → w (get_transaction_count signer) ≡ err e
      → Failed (run w (handle_close x m p details payee token) store)
  unfolding handle_close
  unsent_close_fails signer e signs fails = known-get w Failed _ _ store passed.stored (
      known-some w Failed _ _ store refl (
        known-parties w Failed _ _ _ _ _ store passed.parties.0 passed.parties.1 (
          known-false w Failed _ _ store passed.usable.0 (
            known-lift w Failed _ store passed.amount_parsed (
              known-lift w Failed _ store passed.parsed (
                known-lift w Failed _ store passed.resolved (
                  known-ask w Failed (get_channel passed.escrow passed.id) _ _ store passed.answered
                    (known-false w Failed _ _ store passed.live (
                      known-lift w Failed _ store (close_bounds_ok _ _ _ _ passed.bounds) (
                        known-lift w Failed _ store passed.sig_parsed (
                          known-false w Failed _ _ store (is_off passed.verified) (
                            known-update w Failed _ _ _ store
                              (closing_update_live before _ passed.stored passed.usable)
                              (tail_fails signer e signs fails)))))))))))))

-- A close that passes every check and then cannot read the signer's nonce returns a network error and
-- leaves the channel marked as closing: from that store no deduction, voucher or close on the channel
-- succeeds, whatever the chain answers then.
pub unsent_close_strands :
    (x : Externs) (m : SessionMethod) (p : VoucherPayload) (details : TempoSessionMethodDetails)
    (payee token : Address) (w : World) (store : Channels) (before : ChannelState)
    (on_chain : OnChainChannel) (amount : ℕ) (sig : Bytes) (signer : Address)
    (e : VerificationError)
    → IsCloseable x m p details payee token w store before on_chain amount sig
    → m.close_signer ≡ some signer
    → w (get_transaction_count signer) ≡ err e
    → let (r, end) = run w (handle_close x m p details payee token) store in
      (r ≡ err network_error) × IsUnserved x m p.channel_id end
unsent_close_strands x m p details payee token w store before on_chain amount sig signer e passed
      signs fails =
    rw
      (unsent_close_fails x m p details payee token w store before on_chain amount sig passed signer
        e signs fails)
      (
        refl,
        marked-IsUnserved x m p.channel_id (marked before)
            (insert p.channel_id (marked before) store)
            (rw ((eq_iff p.channel_id p.channel_id).1 refl)) refl,
      )
