-- ===== src/Session/Vocabulary.antt =====
-- The updates that the session method and the metered endpoints ever make, each with what the code has
-- checked before it makes it; and that every handler makes no other.
use mpp_rs.Prelude.{
  ℕ, ◌≤◌, ◌<◌, ◌≡◌, refl, String, Bool, true, false, not, ◌&&◌, Option, none, some, ltb, leb,
  u128_mod, parse_u128-lt, arith, ◌==◌, ==_iff,
}
use mpp_rs.Error.{Result, ok, err}
use mpp_rs.Voucher.{Address, B256, Bytes}
use mathlib.Core.Path.{subst}
use mpp_rs.Session.Store.{HoldsAt}
use mpp_rs.Session.Types.{
  ChannelState, OnChainChannel, TempoSessionMethodDetails, OpenPayload, TopUpPayload,
  VoucherPayload, SessionCredentialPayload, open_channel, top_up, voucher, close, SessionRequest,
  PaymentCredential,
}
use mpp_rs.Session.Updates.{finalize_update, validate_close_amount}
use mpp_rs.Session.Task.{
  ret, get_transaction_count, get_gas_price, send_raw_transaction, get_receipt, get_channel,
}
use mpp_rs.Session.Issues.{
  Issues, at_ret, at_fail, at_update, Issues-bind, Issues-lift, Issues-some_or_fail, Issues-fail_if,
  Issues-fail_if_last, Issues-some_or_fail_last, Issues-get, Issues-update, Issues-ask, Issues-if,
}
use mpp_rs.Session.Externs.{Externs}
use mpp_rs.Session.Method.{
  SessionMethod, Terms, same_signature, accept_higher_voucher, u128_or_invalid, check_parties,
  check_stale_voucher, voucher_is_valid, verify_and_accept_voucher, submit_close, close_hash,
  close_tail, handle_close, handle_open, handle_top_up, handle_voucher, dispatch, verify_session,
  deduct_from_channel,
}
use mpp_rs.Session.Issued.{
  Issued, deduct, opening, topping_up, refresh, accept, mark, unmark, finish, rules,
}

u128_or_invalid-lt : (s : String) (n : ℕ) → u128_or_invalid s ≡ ok n → n < u128_mod
unfolding u128_or_invalid
u128_or_invalid-lt s n e = ground (arith, parse_u128-lt s n)

validate_close_amount-le :
    (a spent settled deposit : ℕ) {u : Unit {0}}
    → validate_close_amount a spent settled deposit ≡ ok u
    → a ≤ deposit
unfolding validate_close_amount
validate_close_amount-le a spent settled deposit e = ground arith

not_ltb : (a b : ℕ) → ltb a b ≡ false → b ≤ a
not_ltb a b h = ground arith

is_on : (b : Bool) → not b ≡ false → b ≡ true
is_on b h = ground arith

known_of :
    (P : String → ChannelState → Type 0) (k : String) (o : Option ChannelState) (s : ChannelState)
    → HoldsAt P k o
    → o ≡ some s
    → P k s
known_of P k none s h e = cc
known_of P k (some t) s h e = subst (P k) (some_of t s e) h
  where
    some_of : (a b : ChannelState) → ◌≡◌ {A = Option ChannelState} (some a) (some b) → a ≡ b
    some_of a b h = cc

module _ (x : Externs) (known : String → Address → Type 0) where
  voucher_is_valid-Issues :
      (t : Terms) (sig : Bytes) (signer : Address)
      → Issues (rules x known) (voucher_is_valid x t sig signer)
  unfolding voucher_is_valid
  voucher_is_valid-Issues t sig signer = Issues-lift _ _ (λ id e. Issues-fail_if_last _ _)

  check_stale_voucher-Issues :
      (t : Terms) (c : ChannelState) → Issues (rules x known) (check_stale_voucher x t c)
  unfolding check_stale_voucher
  check_stale_voucher-Issues t c = Issues-lift _ _ λ sig _.
      Issues-bind
        (Issues-if
          (same_signature c.highest_voucher_signature sig
            && t.cumulative_amount == c.highest_voucher_amount)
          (ret tt) (voucher_is_valid x t sig c.authorized_signer) (λ _. at_ret tt)
          (λ _. voucher_is_valid-Issues t sig c.authorized_signer))
        (λ _. at_fail _)

  accept_higher_voucher-Issues :
      (t : Terms) (c : ChannelState)
      → t.cumulative_amount < u128_mod
      → known t.channel_id_str c.authorized_signer
      → Issues (rules x known) (accept_higher_voucher x t c)
  unfolding accept_higher_voucher
  accept_higher_voucher-Issues t c small is_known = Issues-fail_if _ _ _ λ _.
      Issues-lift _ _ λ id parsed. Issues-lift _ _ λ sig _. Issues-fail_if _ _ _ λ verified.
        Issues-update _ _ _
          (accept t.cumulative_amount sig small (record {
            id = id;
            escrow = t.escrow;
            chain_id = t.chain_id;
            signer = c.authorized_signer;
            is_known = is_known;
            parsed = parsed;
            verified = is_on _ verified;
          }))
          (λ o _. Issues-some_or_fail _ _ _ (λ s _. at_ret _))

  verify_and_accept_voucher-Issues :
      (t : Terms) (c : ChannelState) (deposit settled : ℕ) (finalized : Bool) (close_at : ℕ)
      → t.cumulative_amount < u128_mod
      → known t.channel_id_str c.authorized_signer
      → Issues (rules x known) (verify_and_accept_voucher x t c deposit settled finalized close_at)
  unfolding verify_and_accept_voucher
  verify_and_accept_voucher-Issues t c deposit settled finalized close_at small is_known =
      Issues-fail_if _ _ _ λ _. Issues-fail_if _ _ _ λ _. Issues-fail_if _ _ _ λ _.
        Issues-fail_if _ _ _ λ _.
          Issues-if (leb t.cumulative_amount c.highest_voucher_amount) (check_stale_voucher x t c)
            (accept_higher_voucher x t c) (λ _. check_stale_voucher-Issues t c)
            (λ _. accept_higher_voucher-Issues t c small is_known)

  check_parties-Issues : (a b c d : Address) → Issues (rules x known) (check_parties a b c d)
  unfolding check_parties
  check_parties-Issues a b c d = Issues-fail_if _ _ _ (λ _. Issues-fail_if_last _ _)

  submit_close-Issues :
      (signer : Option Address) (chain_id : ℕ) (escrow : Address) (id : B256) (amount : ℕ)
      (sig : Bytes)
      → Issues (rules x known) (submit_close x signer chain_id escrow id amount sig)
  unfolding submit_close
  submit_close-Issues none chain_id escrow id amount sig = at_ret _
  submit_close-Issues (some signer) chain_id escrow id amount sig =
      Issues-ask (get_transaction_count signer) _ _ λ nonce _. Issues-ask get_gas_price _ _ λ gas _.
        Issues-some_or_fail _ _ _ λ tx _.
          Issues-ask (send_raw_transaction tx) _ _
            λ pending _. Issues-ask (get_receipt pending) _ _ λ receipt _. at_ret _

  close_hash-Issues :
      (k : String) (r : Result (Option String)) → Issues (rules x known) (close_hash x k r)
  unfolding close_hash
  close_hash-Issues k (ok hash) = at_ret _
  close_hash-Issues k (err e) = at_update unmark (λ _ _. at_fail _)

  close_tail-Issues :
      (m : SessionMethod) (p : VoucherPayload) (c : OnChainChannel) (amount : ℕ) (sig : Bytes)
      (escrow : Address) (id : B256) (chain_id : ℕ) (channel : ChannelState)
      → Issued x known p.channel_id (finalize_update c amount sig)
      → Issues (rules x known) (close_tail x m p c amount sig escrow id chain_id channel)
  unfolding close_tail
  close_tail-Issues m p c amount sig escrow id chain_id channel last =
      Issues-bind (submit_close-Issues _ _ _ _ _ _) λ result.
        Issues-bind (close_hash-Issues _ _) λ hash. Issues-update _ _ _ last (λ _ _. at_ret _)

  module _ (m : SessionMethod) (details : TempoSessionMethodDetails) (payee token : Address) where
    handle_close-Issues :
        (p : VoucherPayload) → Issues (rules x known) (handle_close x m p details payee token)
    unfolding handle_close
    handle_close-Issues p = Issues-get _ _ λ stored held. Issues-some_or_fail _ _ _ λ channel there.
        Issues-bind (check_parties-Issues _ _ _ _) λ _. Issues-fail_if _ _ _ λ _.
          Issues-lift _ _ λ amount small. Issues-lift _ _ λ id parsed. Issues-lift _ _ λ escrow _.
            Issues-ask (get_channel escrow id) _ _ λ on_chain typed. Issues-fail_if _ _ _ λ _.
              Issues-lift _ _ λ _ checked. Issues-lift _ _ λ sig _. Issues-fail_if _ _ _ λ verified.
                Issues-update _ _ _ mark λ _ _.
                  close_tail-Issues m p on_chain amount sig _ id _ channel (
                    finish on_chain amount sig typed.0 (u128_or_invalid-lt _ _ small)
                      (validate_close_amount-le _ _ _ _ checked)
                      (record {
                        id = id;
                        escrow = escrow;
                        chain_id = _;
                        signer = channel.authorized_signer;
                        is_known =
                            known_of (λ k s. known k s.authorized_signer) p.channel_id stored
                              channel held there;
                        parsed = parsed;
                        verified = is_on _ verified;
                      }))

    pub handle_voucher-Issues :
        (p : VoucherPayload) → Issues (rules x known) (handle_voucher x m p details payee token)
    unfolding handle_voucher
    handle_voucher-Issues p = Issues-get _ _ λ stored _. Issues-some_or_fail _ _ _ λ channel _.
        Issues-bind (check_parties-Issues _ _ _ _) λ _. Issues-fail_if _ _ _ λ _.
          Issues-fail_if _ _ _ λ _. Issues-lift _ _ λ amount small. Issues-lift _ _ λ escrow _.
            Issues-fail_if _ _ _ λ _. Issues-fail_if _ _ _ λ _. Issues-lift _ _ λ id _.
              Issues-ask (get_channel escrow id) _ _ λ on_chain typed.
                Issues-bind (check_parties-Issues _ _ _ _) λ _.
                  Issues-update _ _ _ (refresh on_chain typed.0) λ updated held.
                    Issues-some_or_fail _ _ _ λ refreshed there.
                      verify_and_accept_voucher-Issues _ _ _ _ _ _ (u128_or_invalid-lt _ _ small) (
                        known_of (λ k s. known k s.authorized_signer) p.channel_id updated refreshed
                          held there)

    handle_top_up-Issues :
        (p : TopUpPayload) → Issues (rules x known) (handle_top_up x m p details payee token)
    unfolding handle_top_up
    handle_top_up-Issues p = Issues-get _ _ λ stored _. Issues-some_or_fail _ _ _ λ channel _.
        Issues-bind (check_parties-Issues _ _ _ _) λ _. Issues-lift _ _ λ id _.
          Issues-lift _ _ λ escrow _. Issues-some_or_fail _ _ _ λ tx _.
            Issues-ask (send_raw_transaction tx) _ _ λ pending _.
              Issues-ask (get_receipt pending) _ _ λ receipt _. Issues-fail_if _ _ _ λ _.
                Issues-ask (get_channel escrow id) _ _ λ on_chain typed.
                  Issues-fail_if _ _ _
                    λ _. Issues-update _ _ _ (topping_up on_chain typed.0) λ _ _. at_ret _

    handle_open-Issues :
        (p : OpenPayload) → Issues (rules x known) (handle_open x m p details payee token)
    unfolding handle_open
    handle_open-Issues p = Issues-lift _ _ λ id parsed. Issues-lift _ _ λ escrow _.
        Issues-some_or_fail _ _ _ λ tx _. Issues-lift _ _ λ bound _.
          Issues-ask (send_raw_transaction tx) _ _ λ pending _.
            Issues-ask (get_receipt pending) _ _ λ receipt _. Issues-fail_if _ _ _ λ _.
              Issues-ask (get_channel escrow id) _ _ λ on_chain typed.
                Issues-bind (check_parties-Issues _ _ _ _) λ _. Issues-fail_if _ _ _ λ _.
                  Issues-fail_if _ _ _ λ live. Issues-fail_if _ _ _ λ unrequested.
                    Issues-lift _ _ λ amount small. Issues-fail_if _ _ _ λ funded.
                      Issues-fail_if _ _ _ λ settled. Issues-lift _ _ λ sig _.
                        Issues-fail_if _ _ _ λ verified.
                          Issues-update _ _ _
                            (opening _ (record {
                              key = refl;
                              typed = typed.0;
                              amount_typed = u128_or_invalid-lt _ _ small;
                              settled = not_ltb _ _ settled;
                              funded = not_ltb _ _ funded;
                              live = (live, (==_iff _ _).0 (is_on _ unrequested));
                              signer = typed.1 p.channel_id parsed;
                              signed = record {
                                id = id;
                                escrow = escrow;
                                chain_id = _;
                                signer = _;
                                is_known = typed.1 p.channel_id parsed;
                                parsed = parsed;
                                verified = is_on _ verified;
                              };
                            }))
                            (λ updated _. Issues-some_or_fail _ _ _ (λ state _. at_ret _))

  -- Whatever it reads and the chain answers, a session request makes updates of the vocabulary alone.
  pub verify_session-Issues :
      (m : SessionMethod) (credential : PaymentCredential) (request : SessionRequest)
      → Issues (rules x known) (verify_session x m credential request)
  unfolding verify_session
  verify_session-Issues m credential request = Issues-fail_if _ _ _ λ _. Issues-fail_if _ _ _ λ _.
      Issues-lift _ _ λ details _. Issues-some_or_fail _ _ _ λ recipient _.
        Issues-lift _ _ λ payee _.
          Issues-lift _ _
            λ token _. Issues-some_or_fail _ _ _ λ payload _. by_action details payee token payload
    where
      by_action :
          (details : TempoSessionMethodDetails) (payee token : Address)
          (payload : SessionCredentialPayload)
          → Issues (rules x known) (dispatch x m payload details payee token)
      by_action details payee token (open_channel p) = handle_open-Issues m details payee token p
      by_action details payee token (top_up p) = handle_top_up-Issues m details payee token p
      by_action details payee token (voucher p) = handle_voucher-Issues m details payee token p
      by_action details payee token (close p) = handle_close-Issues m details payee token p

  pub deduct_from_channel-Issues :
      (k : String) (amount : ℕ)
      → amount < u128_mod
      → Issues (rules x known) (deduct_from_channel k amount)
  unfolding deduct_from_channel
  deduct_from_channel-Issues k amount small =
      Issues-update _ _ _ (deduct amount small) (λ o _. Issues-some_or_fail_last _ _)
