-- ===== src/Client/Recovered.antt =====
-- A channel that the chain has, in src/client/tempo/session/channel_ops.rs.
use mpp_rs.Prelude.{
  ℕ, Bool, true, false, not, none, some, ltb, ◌==◌, if◌then◌else◌, ◌≡◌, refl, both_true, ==_iff,
  Bool-cases, Option-cases, inl, inr,
}
use mathlib.Core.Path.{subst}
use mpp_rs.Session.Types.{OnChainChannel}
use mpp_rs.Tempo.Logs.{and_then}
use mpp_rs.Client.Types.{ChannelEntry, Wallet, TempoSessionProvider}
use mpp_rs.Client.Terms.{Terms, unwrap_or, is_precompile_escrow, request_channel_id}
use mpp_rs.Client.Payloads.{try_recover_channel}
use mpp_rs.Client.Pay.{suggested_channel}

pub split_if :
    (b : Bool) (made entry : ChannelEntry)
    → (if b then some made else none) ≡ some entry
    → (made ≡ entry) × (b ≡ true)
split_if true made entry h = (cc, refl)
split_if false made entry h = cc

is_off : (b : Bool) → not b ≡ true → b ≡ false
is_off true h = cc
is_off false h = refl

module _ (x : Wallet) (p : TempoSessionProvider) where
  -- The chain's record of a channel that is open and of these parties.
  abbrev pub Recovers : Terms → ChannelEntry → Type 0
  Recovers t entry =
      (on_chain : OnChainChannel) × (x.get_on_chain_channel t.escrow_contract entry.channel_id
        ≡ some on_chain)
      × ((on_chain.finalized ≡ false)
          × (on_chain.close_requested_at ≡ 0)
          × (on_chain.payer ≡ p.payer)
          × (on_chain.payee ≡ t.payee)
          × (on_chain.token ≡ t.currency))
      × (entry.cumulative_amount ≡ on_chain.settled)
      × (entry.opened ≡ true)

  try_recover_channel-Recovers :
      (t : Terms) (id authorized_signer : ℕ) (entry : ChannelEntry)
      → try_recover_channel x t.escrow_contract id t.chain_id p.payer t.payee t.currency
          authorized_signer
        ≡ some entry
      → Recovers t entry
  unfolding try_recover_channel
  try_recover_channel-Recovers t id authorized_signer entry e =
      elim (Option-cases (x.get_on_chain_channel t.escrow_contract id)) [
        | inl missing ↦ cc (rw (missing, try_recover_channel) at e)
        | inr (on_chain, answered) ↦
            let shown = rw (answered, try_recover_channel) at e in
            let (same, live) = split_if _ _ entry shown in
            let (_, e₁) = both_true (ltb 0 on_chain.deposit) _ live in
            let (live_mark, e₂) = both_true (not on_chain.finalized) _ e₁ in
            let (unasked, e₃) = both_true (on_chain.close_requested_at == 0) _ e₂ in
            let (payer, e₄) = both_true (on_chain.payer == p.payer) _ e₃ in
            let (payee, e₅) = both_true (on_chain.payee == t.payee) _ e₄ in
            let (token, _) = both_true (on_chain.token == t.currency) _ e₅ in
            subst (Recovers t) same (
              on_chain,
              answered,
              (
                is_off on_chain.finalized live_mark,
                (==_iff _ _).0 unasked,
                (==_iff _ _).0 payer,
                (==_iff _ _).0 payee,
                (==_iff _ _).0 token,
              ),
              refl,
              refl,
            )
      ]

  pub suggested_channel-Recovers :
      (t : Terms) (entry : ChannelEntry) → suggested_channel x p t ≡ some entry → Recovers t entry
  unfolding suggested_channel
  suggested_channel-Recovers t entry e =
      elim (Bool-cases (is_precompile_escrow x t.escrow_contract)) [
        | inl on ↦ cc (rw on at e)
        | inr off ↦ elim (Option-cases (and_then (request_channel_id t.request) x.parse_b256)) [
          | inl unnamed ↦ cc (rw (off, unnamed) at e)
          | inr (id, named) ↦
              try_recover_channel-Recovers t id (unwrap_or p.authorized_signer p.payer) entry
                (rw (off, named) at e)
        ]
      ]
