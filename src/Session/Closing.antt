-- ===== src/Session/Closing.antt =====
-- `handle_close` of src/protocol/methods/tempo/session_method.rs, run alone, on every way out.
use mpp_rs.Prelude.{ℕ, ◌≡◌, refl, ◌⊎◌, inl, inr, String, false, Option, some}
use mpp_rs.Error.{Result, ok}
use mpp_rs.Voucher.{Address, B256, Bytes}
use mpp_rs.Session.Types.{
  ChannelState, OnChainChannel, TempoSessionMethodDetails, VoucherPayload, Receipt, method_name,
}
use mpp_rs.Session.Updates.{closing_update}
use mpp_rs.Session.Task.{get_channel}
use mpp_rs.Session.Store.{Channels, World, insert, store_result, run}
use mpp_rs.Session.Externs.{Externs}
use mpp_rs.Session.Method.{SessionMethod, resolve_chain_id, close_tail, handle_close}
use mpp_rs.Session.Run.{
  run-lift, run-some_or_fail, run-fail_if, run-get, run-update, run-ask, run-check_parties,
  known-update,
}
use mpp_rs.Session.Accepting.{is_on}
use mpp_rs.Session.Closeable.{
  marked, final, run-submit, IsCloseable, IsClosed, IsStranded, run-close_hash, ret_end, mark-ok,
  finalize-marked, insert_self, insert-insert, close_bounds, CloseOutcome,
}

module _ (x : Externs) (m : SessionMethod) (p : VoucherPayload)
    (details : TempoSessionMethodDetails) (payee token : Address) (w : World)
    (store : Channels) where
  abbrev Q : Result Receipt × Channels → Type 0
  Q = CloseOutcome x m p details payee token w store

  abbrev Passed : ChannelState → OnChainChannel → ℕ → Bytes → Type 0
  Passed before on_chain amount sig =
      IsCloseable x m p details payee token w store before on_chain amount sig

  -- Behind the mark.
  after_mark :
      (before : ChannelState) (on_chain : OnChainChannel) (amount : ℕ) (sig : Bytes)
      (escrow : Address) (id : B256)
      → Passed before on_chain amount sig
      → Q (
          run w
            (close_tail x m p on_chain amount sig escrow id (resolve_chain_id m details) before)
            (insert p.channel_id (marked before) store))
  unfolding close_tail
  after_mark before on_chain amount sig escrow id passed =
      run-submit x w Q m.close_signer _ escrow id amount sig _ _ (λ e. inr stranded)
        λ hash. run-close_hash x w Q p.channel_id hash _ _ (
          known-update w Q _ _ _ _
            (finalize-marked on_chain amount sig before _
              (insert_self p.channel_id (marked before) store))
            (ret_end w Q _ _ closed))
    where
      stranded :
          IsStranded x m p details payee token w store (insert p.channel_id (marked before) store)
      stranded = record {
        before = before;
        on_chain = on_chain;
        amount = amount;
        sig = sig;
        passed = passed;
        left = λ j. refl;
      }

      closed :
          {reference : String}
          → IsClosed x m p details payee token w store
              (record { method = method_name; reference = reference })
              (insert p.channel_id
                (final on_chain amount sig before)
                (insert p.channel_id (marked before) store))
      closed = record {
        before = before;
        on_chain = on_chain;
        amount = amount;
        sig = sig;
        passed = passed;
        method = refl;
        left = λ j. insert-insert p.channel_id j _ _ store;
      }

  -- At the mark: a channel that is final or marked is refused.
  at_mark :
      (before : ChannelState) (on_chain : OnChainChannel) (amount : ℕ) (sig : Bytes)
      (escrow : Address) (id : B256)
      → store p.channel_id ≡ some before
      → ((before.finalized ≡ false) × (before.closing ≡ false) → Passed before on_chain amount sig)
      → (o : Option ChannelState) → closing_update (store p.channel_id) ≡ ok o
      → Q (
          run w
            (close_tail x m p on_chain amount sig escrow id (resolve_chain_id m details) before)
            (store_result p.channel_id (ok o) store))
  at_mark before on_chain amount sig escrow id stored passed o e =
      let (live, unmarked, is_marked) = mark-ok _ o before stored e in
      rw is_marked (after_mark before on_chain amount sig escrow id (passed (live, unmarked)))

-- A close request that runs alone succeeds, and then it passed every check of `IsCloseable`, and the
-- store has the channel finalized with the larger voucher and is otherwise as it was; or it is an error,
-- and then the store is as it was, or every check was passed, the channel carries the closing mark and
-- the store is otherwise as it was.
pub handle_close-Outcome :
    (x : Externs) (m : SessionMethod) (p : VoucherPayload) (details : TempoSessionMethodDetails)
    (payee token : Address) (w : World) (store : Channels)
    → CloseOutcome x m p details payee token w store
        (run w (handle_close x m p details payee token) store)
unfolding handle_close
handle_close-Outcome x m p details payee token w store = run-get w Q' _ _ store (
    run-some_or_fail w Q' _ _ _ store same λ before stored.
      run-check_parties w Q' _ _ _ _ _ store same λ of_payee of_token.
        run-fail_if w Q' _ _ _ store same λ _.
          run-lift w Q' _ _ store (λ e _. same e)
            λ amount amount_parsed.
              run-lift w Q' _ _ store (λ e _. same e)
                λ id parsed.
                  run-lift w Q' _ _ store (λ e _. same e)
                    λ escrow resolved.
                      run-ask w Q' (get_channel escrow id) _ _ store (λ e _. same e)
                        λ on_chain answered. run-fail_if w Q' _ _ _ store same λ live.
                          run-lift w Q' _ _ store (λ e _. same e)
                            λ _ bounds.
                              run-lift w Q' _ _ store (λ e _. same e)
                                λ sig sig_parsed. run-fail_if w Q' _ _ _ store same λ verified.
                                  run-update w Q' _ _ _ store (λ e _. same e)
                                    (at_mark x m p details payee token w store before on_chain
                                      amount sig escrow id stored
                                      λ usable. record {
                                        escrow = escrow;
                                        id = id;
                                        stored = stored;
                                        parties = (of_payee, of_token);
                                        usable = usable;
                                        amount_parsed = amount_parsed;
                                        parsed = parsed;
                                        resolved = resolved;
                                        answered = answered;
                                        live = live;
                                        bounds = close_bounds _ _ _ _ bounds;
                                        sig_parsed = sig_parsed;
                                        verified = is_on _ verified;
                                      }))
  where
    Q' : Result Receipt × Channels → Type 0
    Q' = CloseOutcome x m p details payee token w store

    same :
        {A : Type 0}
        → A
        → ((j : String) → store j ≡ store j) ⊎ IsStranded x m p details payee token w store store
    same _ = inl (λ j. refl)
