-- ===== src/Session/Vouchers.antt =====
-- `handle_voucher` of src/protocol/methods/tempo/session_method.rs, run alone, on every way out.
use mpp_rs.Prelude.{
  ℕ, ◌≡◌, refl, inl, inr, String, Bool, false, not, Option, none, some, ◌==◌, ==_iff, max,
  Bool-cases, str_eq, eq_iff,
}
use mpp_rs.Error.{Result, ok, err}
use mpp_rs.Voucher.{Address, B256, Bytes}
use mpp_rs.Session.Types.{
  ChannelState, OnChainChannel, TempoSessionMethodDetails, VoucherPayload, Receipt, method_name,
}
use mpp_rs.Session.Updates.{refresh_update, refreshed}
use mpp_rs.Session.Task.{get_channel}
use mpp_rs.Session.Store.{Channels, World, insert, run}
use mpp_rs.Session.Externs.{Externs}
use mpp_rs.Session.Method.{
  SessionMethod, parse_channel_id, resolve_escrow, resolve_chain_id, resolve_min_delta,
  u128_or_invalid, handle_voucher,
}
use mpp_rs.Session.Run.{
  run-lift, run-some_or_fail, run-fail_if, run-get, run-ask, run-check_parties, known-update,
  known-some,
}
use mpp_rs.Session.Accepting.{with_voucher, IsAcceptable, accept_end, is_on}

-- What a voucher is about: the amount, its signature, the charged units and the lifecycle marks.
abbrev pub voucher_of : Option ChannelState → Option (ℕ × Option Bytes × ℕ × Bool)
voucher_of none = none
voucher_of (some s) =
    some (s.highest_voucher_amount, s.highest_voucher_signature, s.units, s.closing)

module _ (x : Externs) (m : SessionMethod) (p : VoucherPayload)
    (details : TempoSessionMethodDetails) (payee token : Address) (w : World)
    (store : Channels) where
  pub record IsAccepted (r : Receipt) (end : Channels) : Type 0 where
    pub before : ChannelState
    pub on_chain : OnChainChannel
    pub amount : ℕ
    pub escrow : Address
    pub id : B256
    pub sig : Bytes
    pub stored : store p.channel_id ≡ some before
    pub parties : (before.payee ≡ payee) × (before.token ≡ token)
    pub usable : (before.finalized ≡ false) × (before.closing ≡ false)
    pub amount_parsed : u128_or_invalid p.cumulative_amount ≡ ok amount
    pub contract :
        (resolve_escrow x details ≡ ok escrow)
        × (before.escrow_contract ≡ escrow)
        × (before.chain_id ≡ resolve_chain_id m details)
    pub answered : w (get_channel escrow id) ≡ ok on_chain
    pub chain_parties : (on_chain.payee ≡ payee) × (on_chain.token ≡ token)
    pub passed :
        IsAcceptable x
          (record {
            channel_id_str = p.channel_id;
            cumulative_amount = amount;
            signature_str = p.signature;
            escrow = escrow;
            chain_id = resolve_chain_id m details;
            min_delta = resolve_min_delta m details;
          })
          (refreshed on_chain before)
          on_chain.deposit
          (max on_chain.settled before.settled_on_chain)
          on_chain.finalized
          on_chain.close_requested_at
          id
          sig
    pub receipt : r ≡ record { method = method_name; reference = before.channel_id }
    pub left :
        (j : String)
        → end j ≡ insert p.channel_id (with_voucher amount sig (refreshed on_chain before)) store j

  abbrev pub Outcome : Result Receipt × Channels → Type 0
  Outcome (ok r, end) = IsAccepted r end
  Outcome (err e, end) = (j : String) → voucher_of (end j) ≡ voucher_of (store j)

stored_self : (k : String) (c : ChannelState) (s : Channels) → insert k c s k ≡ some c
stored_self k c s = rw ((eq_iff k k).1 refl)

insert-insert :
    (k j : String) (a b : ChannelState) (s : Channels)
    → insert k b (insert k a s) j ≡ insert k b s j
insert-insert k j a b s = elim (Bool-cases (str_eq k j)) [ inl e ↦ rw e | inr e ↦ rw e ]

voucher-refreshed :
    (k j : String) (c : OnChainChannel) (b : ChannelState) (s : Channels)
    → s k ≡ some b
    → voucher_of (insert k (refreshed c b) s j) ≡ voucher_of (s j)
voucher-refreshed k j c b s e = elim (Bool-cases (str_eq k j)) [
  | inl same ↦ rw (same, ← (eq_iff k j).0 same, e)
  | inr other ↦ rw other
]

refresh-some :
    (c : OnChainChannel) (b : ChannelState) (o : Option ChannelState)
    → o ≡ some b
    → refresh_update c o ≡ ok (some (refreshed c b))
unfolding refresh_update
refresh-some c b o e = rw e

module _ (x : Externs) (m : SessionMethod) (p : VoucherPayload)
    (details : TempoSessionMethodDetails) (payee token : Address) (w : World)
    (store : Channels) where
  accepted :
      (before : ChannelState) (on_chain : OnChainChannel) (amount : ℕ) (escrow : Address)
      (id id' : B256) (sig : Bytes)
      → store p.channel_id ≡ some before
      → before.payee ≡ payee
      → before.token ≡ token
      → before.finalized ≡ false
      → before.closing ≡ false
      → u128_or_invalid p.cumulative_amount ≡ ok amount
      → resolve_escrow x details ≡ ok escrow
      → not (before.chain_id == resolve_chain_id m details) ≡ false
      → not (before.escrow_contract == escrow) ≡ false
      → parse_channel_id x p.channel_id ≡ ok id
      → w (get_channel escrow id) ≡ ok on_chain
      → on_chain.payee ≡ payee
      → on_chain.token ≡ token
      → IsAcceptable x
          (record {
            channel_id_str = p.channel_id;
            cumulative_amount = amount;
            signature_str = p.signature;
            escrow = escrow;
            chain_id = resolve_chain_id m details;
            min_delta = resolve_min_delta m details;
          })
          (refreshed on_chain before)
          on_chain.deposit
          (max on_chain.settled before.settled_on_chain)
          on_chain.finalized
          on_chain.close_requested_at
          id'
          sig
      → IsAccepted x m p details payee token w store
          (record { method = method_name; reference = before.channel_id })
          (insert p.channel_id
            (with_voucher amount sig (refreshed on_chain before))
            (insert p.channel_id (refreshed on_chain before) store))
  accepted before on_chain amount escrow id id' sig stored pa to live unmarked parsed resolved chain
        contract id_parsed answered cpa cto passed =
      let same_id : id ≡ id' = cc (passed.parsed) in
      record {
        before = before;
        on_chain = on_chain;
        amount = amount;
        escrow = escrow;
        id = id';
        sig = sig;
        stored = stored;
        parties = (pa, to);
        usable = (live, unmarked);
        amount_parsed = parsed;
        contract = (resolved, (==_iff _ _).0 (is_on _ contract), (==_iff _ _).0 (is_on _ chain));
        answered = rw (← same_id) answered;
        chain_parties = (cpa, cto);
        passed = passed;
        receipt = refl;
        left = λ j. insert-insert p.channel_id j _ _ store;
      }

-- A voucher request that runs alone is accepted, and then it passed every check of `IsAccepted`, and
-- the store has the refreshed channel with the new voucher and is otherwise as it was; or it is an
-- error, and then no channel's highest voucher, signature, units or closing mark has changed.
pub handle_voucher-Outcome :
    (x : Externs) (m : SessionMethod) (p : VoucherPayload) (details : TempoSessionMethodDetails)
    (payee token : Address) (w : World) (store : Channels)
    → Outcome x m p details payee token w store
        (run w (handle_voucher x m p details payee token) store)
unfolding handle_voucher
handle_voucher-Outcome x m p details payee token w store = run-get w Q _ _ store (
    run-some_or_fail w Q _ _ _ store same λ before stored.
      run-check_parties w Q _ _ _ _ _ store (λ _ _. refl)
        λ of_payee of_token. run-fail_if w Q _ _ _ store same λ live.
          run-fail_if w Q _ _ _ store same λ unmarked.
            run-lift w Q _ _ store (λ _ _ _. refl)
              λ amount amount_parsed.
                run-lift w Q _ _ store (λ _ _ _. refl)
                  λ escrow resolved. run-fail_if w Q _ _ _ store same λ on_chain_id.
                    run-fail_if w Q _ _ _ store same λ on_escrow.
                      run-lift w Q _ _ store (λ _ _ _. refl)
                        λ id parsed.
                          run-ask w Q (get_channel escrow id) _ _ store (λ _ _ _. refl)
                            λ on_chain answered.
                              run-check_parties w Q _ _ _ _ _ store (λ _ _. refl)
                                λ chain_payee chain_token.
                                  known-update w Q _ _ _ store
                                    (refresh-some on_chain before _ stored)
                                    (known-some w Q _ _ _ refl (
                                      accept_end x w Q _ _ (refreshed on_chain before) _ _ _ _
                                        (stored_self p.channel_id (refreshed on_chain before) store)
                                        (λ _ j.
                                          voucher-refreshed p.channel_id j on_chain before store
                                            stored)
                                        (λ id' sig passed.
                                          accepted x m p details payee token w store before on_chain
                                            amount escrow id id' sig stored of_payee of_token live
                                            unmarked amount_parsed resolved on_chain_id on_escrow
                                            parsed answered chain_payee chain_token passed))))
  where
    Q : Result Receipt × Channels → Type 0
    Q = Outcome x m p details payee token w store

    same : {A : Type 0} → A → (j : String) → voucher_of (store j) ≡ voucher_of (store j)
    same _ j = refl
