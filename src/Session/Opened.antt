-- ===== src/Session/Opened.antt =====
-- `handle_open` of src/protocol/methods/tempo/session_method.rs, run alone, on every way out.
use mpp_rs.Prelude.{
  ℕ, ◌≤◌, ◌<◌, ◌≡◌, refl, String, true, false, Option, none, some, ltb, ◌==◌, ==_iff, arith,
}
use mpp_rs.Error.{Result, ok, err}
use mpp_rs.Voucher.{Address, B256, Bytes, verify_voucher}
use mpp_rs.Session.Types.{
  ChannelState, OnChainChannel, TempoSessionMethodDetails, OpenPayload, Receipt, method_name,
}
use mpp_rs.Session.Updates.{Opening, opened, reopened, open_update}
use mpp_rs.Session.Task.{TxReceipt, send_raw_transaction, get_receipt, get_channel}
use mpp_rs.Session.Store.{Channels, World, insert, run}
use mpp_rs.Session.Externs.{Externs}
use mpp_rs.Session.Method.{
  SessionMethod, parse_channel_id, parse_signature, resolve_escrow, resolve_chain_id,
  u128_or_invalid, effective_signer, handle_open,
}
use mpp_rs.Session.Binding.{IsBound, verify_open_channel_id_binding-IsBound}
use mpp_rs.Session.Run.{
  run-lift, run-some_or_fail, run-fail_if, run-ask, run-check_parties, run-ret, known-update,
  known-some,
}
use mpp_rs.Session.Accepting.{is_on}

-- The channel that an open leaves, by what was stored before.
abbrev pub after_open : Opening → Option ChannelState → ChannelState
after_open o none = opened o
after_open o (some existing) = reopened o existing

open_update-some :
    (o : Opening) (e : Option ChannelState) → open_update o e ≡ ok (some (after_open o e))
unfolding open_update
open_update-some o none = refl
open_update-some o (some existing) = refl

module _ (x : Externs) (m : SessionMethod) (p : OpenPayload) (details : TempoSessionMethodDetails)
    (payee token : Address) (w : World) (store : Channels) where
  pub record IsOpened (r : Receipt) (end : Channels) : Type 0 where
    pub escrow : Address
    pub id : B256
    pub tx_bytes : Bytes
    pub pending : String
    pub tx_receipt : TxReceipt
    pub on_chain : OnChainChannel
    pub amount : ℕ
    pub sig : Bytes
    pub parsed : parse_channel_id x p.channel_id ≡ ok id
    pub resolved : resolve_escrow x details ≡ ok escrow
    pub tx_parsed : x.bytes_of_str p.transaction ≡ some tx_bytes
    pub bound : IsBound x tx_bytes id escrow (resolve_chain_id m details) payee token
    pub sent :
        (w (send_raw_transaction tx_bytes) ≡ ok pending)
        × (w (get_receipt pending) ≡ ok tx_receipt)
        × (tx_receipt.status ≡ true)
    pub answered : w (get_channel escrow id) ≡ ok on_chain
    pub parties : (on_chain.payee ≡ payee) × (on_chain.token ≡ token)
    pub usable : (on_chain.finalized ≡ false) × (on_chain.close_requested_at ≡ 0)
    pub amount_parsed : u128_or_invalid p.cumulative_amount ≡ ok amount
    pub bounds : (0 < on_chain.deposit) × (on_chain.settled ≤ amount) × (amount ≤ on_chain.deposit)
    pub sig_parsed : parse_signature x p.signature ≡ ok sig
    pub verified :
        verify_voucher x.recover escrow
          (resolve_chain_id m details)
          id
          amount
          sig
          (effective_signer on_chain)
        ≡ true
    pub receipt : r ≡ record { method = method_name; reference = tx_receipt.transaction_hash }
    pub left :
        end
        ≡ insert p.channel_id
            (after_open
              (record {
                channel_id = p.channel_id;
                chain_id = resolve_chain_id m details;
                escrow = escrow;
                on_chain = on_chain;
                authorized_signer = effective_signer on_chain;
                cumulative_amount = amount;
                sig_bytes = sig;
                now = x.now;
              })
              (store p.channel_id))
            store

  abbrev pub OpenOutcome : Result Receipt × Channels → Type 0
  OpenOutcome (ok r, end) = IsOpened r end
  OpenOutcome (err e, end) = end ≡ store

pos_of : (n : ℕ) → (n == 0) ≡ false → 0 < n
pos_of n h = ground arith

le_of : (a b : ℕ) → ltb a b ≡ false → b ≤ a
le_of a b h = ground arith

-- An open that runs alone succeeds, and then it passed every check of `IsOpened`, its transaction was
-- sent and did not revert, and the store has the opened or reopened channel and is otherwise as it was;
-- or it is an error, and then the store is as it was.
pub handle_open-Outcome :
    (x : Externs) (m : SessionMethod) (p : OpenPayload) (details : TempoSessionMethodDetails)
    (payee token : Address) (w : World) (store : Channels)
    → OpenOutcome x m p details payee token w store
        (run w (handle_open x m p details payee token) store)
unfolding handle_open
handle_open-Outcome x m p details payee token w store =
    run-lift w Q _ _ store (λ _ _. refl)
      λ id parsed.
        run-lift w Q _ _ store (λ _ _. refl)
          λ escrow resolved.
            run-some_or_fail w Q _ _ _ store (λ _. refl)
              λ tx_bytes tx_parsed.
                run-lift w Q _ _ store (λ _ _. refl)
                  λ u bound.
                    run-ask w Q (send_raw_transaction tx_bytes) _ _ store (λ _ _. refl)
                      λ pending sent.
                        run-ask w Q (get_receipt pending) _ _ store (λ _ _. refl)
                          λ tx_receipt mined.
                            run-fail_if w Q _ _ _ store (λ _. refl)
                              λ status.
                                run-ask w Q (get_channel escrow id) _ _ store (λ _ _. refl)
                                  λ on_chain answered.
                                    run-check_parties w Q _ _ _ _ _ store (λ _. refl)
                                      λ of_payee of_token.
                                        run-fail_if w Q _ _ _ store (λ _. refl)
                                          λ funded.
                                            run-fail_if w Q _ _ _ store (λ _. refl)
                                              λ live.
                                                run-fail_if w Q _ _ _ store (λ _. refl)
                                                  λ unrequested.
                                                    run-lift w Q _ _ store (λ _ _. refl)
                                                      λ amount amount_parsed.
                                                        run-fail_if w Q _ _ _ store (λ _. refl)
                                                          λ within.
                                                            run-fail_if w Q _ _ _ store (λ _. refl)
                                                            λ above.
                                                            run-lift w Q _ _ store (λ _ _. refl)
                                                            λ sig sig_parsed.
                                                            run-fail_if w Q _ _ _ store (λ _. refl)
                                                            λ verified.
                                                            known-update w Q _ _ _ store
                                                            (open_update-some _ _)
                                                            (known-some w Q _ _ _ refl (
                                                            run-ret w Q _ _ (record {
                                                            escrow = escrow;
                                                            id = id;
                                                            tx_bytes = tx_bytes;
                                                            pending = pending;
                                                            tx_receipt = tx_receipt;
                                                            on_chain = on_chain;
                                                            amount = amount;
                                                            sig = sig;
                                                            parsed = parsed;
                                                            resolved = resolved;
                                                            tx_parsed = tx_parsed;
                                                            bound =
                                                            verify_open_channel_id_binding-IsBound x
                                                            tx_bytes id escrow _ payee token bound;
                                                            sent = (sent, mined, is_on _ status);
                                                            answered = answered;
                                                            parties = (of_payee, of_token);
                                                            usable = (
                                                            live,
                                                            (==_iff _ _).0 (is_on _ unrequested),
                                                            );
                                                            amount_parsed = amount_parsed;
                                                            bounds = (
                                                            pos_of _ funded,
                                                            le_of _ _ above,
                                                            le_of _ _ within,
                                                            );
                                                            sig_parsed = sig_parsed;
                                                            verified = is_on _ verified;
                                                            receipt = refl;
                                                            left = refl;
                                                            })))
  where
    Q : Result Receipt × Channels → Type 0
    Q = OpenOutcome x m p details payee token w store
