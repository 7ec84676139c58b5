-- ===== src/Session/ToppedUp.antt =====
-- `handle_top_up` of src/protocol/methods/tempo/session_method.rs, run alone, on every way out.
use mpp_rs.Prelude.{ℕ, ◌<◌, ◌≡◌, refl, String, true, false, Option, some, leb, max, arith}
use mpp_rs.Error.{Result, ok, err}
use mpp_rs.Voucher.{Address, B256, Bytes}
use mpp_rs.Session.Types.{
  ChannelState, OnChainChannel, TempoSessionMethodDetails, TopUpPayload, Receipt, method_name,
}
use mpp_rs.Session.Updates.{top_up_update}
use mpp_rs.Session.Task.{TxReceipt, send_raw_transaction, get_receipt, get_channel}
use mpp_rs.Session.Store.{Channels, World, insert, run}
use mpp_rs.Session.Externs.{Externs}
use mpp_rs.Session.Method.{SessionMethod, parse_channel_id, resolve_escrow, handle_top_up}
use mpp_rs.Session.Run.{
  run-lift, run-some_or_fail, run-fail_if, run-get, run-ask, run-check_parties, run-ret,
  known-update,
}
use mpp_rs.Session.Accepting.{is_on}

-- The channel with what the chain holds of it: the settled amount and the charges only rise.
abbrev pub topped_up : OnChainChannel → ChannelState → ChannelState
topped_up on_chain before = record before {
  deposit = on_chain.deposit;
  settled_on_chain = max on_chain.settled before.settled_on_chain;
  spent = max (max on_chain.settled before.settled_on_chain) before.spent;
  close_requested_at = on_chain.close_requested_at;
}

top_up_update-some :
    (c : OnChainChannel) (before : ChannelState) (o : Option ChannelState)
    → o ≡ some before
    → top_up_update c o ≡ ok (some (topped_up c before))
unfolding top_up_update
top_up_update-some c before o e = rw e

lt_of : (a b : ℕ) → leb a b ≡ false → b < a
lt_of a b h = ground arith

module _ (x : Externs) (m : SessionMethod) (p : TopUpPayload) (details : TempoSessionMethodDetails)
    (payee token : Address) (w : World) (store : Channels) where
  pub record IsToppedUp (r : Receipt) (end : Channels) : Type 0 where
    pub before : ChannelState
    pub escrow : Address
    pub id : B256
    pub tx_bytes : Bytes
    pub pending : String
    pub tx_receipt : TxReceipt
    pub on_chain : OnChainChannel
    pub stored : store p.channel_id ≡ some before
    pub parties : (before.payee ≡ payee) × (before.token ≡ token)
    pub parsed : parse_channel_id x p.channel_id ≡ ok id
    pub resolved : resolve_escrow x details ≡ ok escrow
    pub tx_parsed : x.bytes_of_str p.transaction ≡ some tx_bytes
    pub sent :
        (w (send_raw_transaction tx_bytes) ≡ ok pending)
        × (w (get_receipt pending) ≡ ok tx_receipt)
        × (tx_receipt.status ≡ true)
    pub answered : w (get_channel escrow id) ≡ ok on_chain
    pub grown : before.deposit < on_chain.deposit
    pub receipt : r ≡ record { method = method_name; reference = before.channel_id }
    pub left : end ≡ insert p.channel_id (topped_up on_chain before) store

  abbrev pub TopUpOutcome : Result Receipt × Channels → Type 0
  TopUpOutcome (ok r, end) = IsToppedUp r end
  TopUpOutcome (err e, end) = end ≡ store

-- A top-up that runs alone succeeds, and then its channel was stored with the request's parties, its
-- transaction was sent and did not revert, the deposit has grown, and the store has the channel with
-- what the chain holds of it and is otherwise as it was; or it is an error, and then the store is as it
-- was.
pub handle_top_up-Outcome :
    (x : Externs) (m : SessionMethod) (p : TopUpPayload) (details : TempoSessionMethodDetails)
    (payee token : Address) (w : World) (store : Channels)
    → TopUpOutcome x m p details payee token w store
        (run w (handle_top_up x m p details payee token) store)
unfolding handle_top_up
handle_top_up-Outcome x m p details payee token w store = run-get w Q _ _ store (
    run-some_or_fail w Q _ _ _ store (λ _. refl)
      λ before stored.
        run-check_parties w Q _ _ _ _ _ store (λ _. refl)
          λ of_payee of_token.
            run-lift w Q _ _ store (λ _ _. refl)
              λ id parsed.
                run-lift w Q _ _ store (λ _ _. refl)
                  λ escrow resolved.
                    run-some_or_fail w Q _ _ _ store (λ _. refl)
                      λ tx_bytes tx_parsed.
                        run-ask w Q (send_raw_transaction tx_bytes) _ _ store (λ _ _. refl)
                          λ pending sent.
                            run-ask w Q (get_receipt pending) _ _ store (λ _ _. refl)
                              λ tx_receipt mined.
                                run-fail_if w Q _ _ _ store (λ _. refl)
                                  λ status.
                                    run-ask w Q (get_channel escrow id) _ _ store (λ _ _. refl)
                                      λ on_chain answered.
                                        run-fail_if w Q _ _ _ store (λ _. refl)
                                          λ grown.
                                            known-update w Q _ _ _ store
                                              (top_up_update-some on_chain before _ stored)
                                              (run-ret w Q _ _ (record {
                                                before = before;
                                                escrow = escrow;
                                                id = id;
                                                tx_bytes = tx_bytes;
                                                pending = pending;
                                                tx_receipt = tx_receipt;
                                                on_chain = on_chain;
                                                stored = stored;
                                                parties = (of_payee, of_token);
                                                parsed = parsed;
                                                resolved = resolved;
                                                tx_parsed = tx_parsed;
                                                sent = (sent, mined, is_on _ status);
                                                answered = answered;
                                                grown = lt_of _ _ grown;
                                                receipt = refl;
                                                left = refl;
                                              })))
  where
    Q : Result Receipt × Channels → Type 0
    Q = TopUpOutcome x m p details payee token w store
