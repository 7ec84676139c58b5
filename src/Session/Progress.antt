-- ===== src/Session/Progress.antt =====
-- Funds never move back: what any interleaving leaves of a stored channel.
use mpp_rs.Prelude.{
  ℕ, ◌≤◌, ◌≡◌, refl, ◌∙◌, inl, inr, false, String, Option, none, some, List, All, arith,
  add_u128-eq_add, str_eq, eq_iff, Bool-cases,
}
use mpp_rs.Error.{Result, ok, err}
use mpp_rs.Voucher.{Bytes}
use mpp_rs.Session.Types.{ChannelState, OnChainChannel}
use mpp_rs.Session.Updates.{
  Updater, Opening, deduct_update, open_update, top_up_update, refresh_update, accept_update,
  closing_update, abort_update, finalize_update,
}
use mpp_rs.Session.Store.{Channels, World, store_result, Holds}
use mpp_rs.Session.Issues.{IsTypedWorld}
use mpp_rs.Session.Externs.{Externs}
use mpp_rs.Session.Method.{SessionMethod}
use mpp_rs.Session.Server.{Request, IsTypedRequest, after, after-typed}
use mpp_rs.Session.Solvency.{IsSolvent, keeps-IsSolvent}
use mpp_rs.Session.Issued.{
  Issued, deduct, opening, topping_up, refresh, accept, mark, unmark, finish, Anyone,
}

-- The channel is the same one, and none of its amounts is less.
pub record IsAhead (s t : ChannelState) : Type 0 where
  pub parties : (t.payer ≡ s.payer) × (t.payee ≡ s.payee) × (t.token ≡ s.token)
  pub contract : (t.escrow_contract ≡ s.escrow_contract) × (t.chain_id ≡ s.chain_id)
  pub identity : (t.channel_id ≡ s.channel_id) × (t.created_at ≡ s.created_at)
  pub settled : s.settled_on_chain ≤ t.settled_on_chain
  pub voucher : s.highest_voucher_amount ≤ t.highest_voucher_amount
  pub spent : s.spent ≤ t.spent

abbrev AheadOf : ChannelState → Result (Option ChannelState) → Type 0
AheadOf s (ok (some t)) = IsAhead s t
AheadOf s (ok none) = ⊥
AheadOf s (err e) = Unit

deduct-IsAhead :
    (k : String) (amount : ℕ) (s : ChannelState)
    → IsSolvent k s
    → AheadOf s (deduct_update amount (some s))
unfolding deduct_update
deduct-IsAhead k amount s h = ground (arith, add_u128-eq_add s.spent amount)

open-IsAhead : (o : Opening) (s : ChannelState) → AheadOf s (open_update o (some s))
unfolding open_update
open-IsAhead o s = ground arith

top_up-IsAhead : (c : OnChainChannel) (s : ChannelState) → AheadOf s (top_up_update c (some s))
unfolding top_up_update
top_up-IsAhead c s = ground arith

refresh-IsAhead : (c : OnChainChannel) (s : ChannelState) → AheadOf s (refresh_update c (some s))
unfolding refresh_update
refresh-IsAhead c s = ground arith

accept-IsAhead : (a : ℕ) (sig : Bytes) (s : ChannelState) → AheadOf s (accept_update a sig (some s))
unfolding accept_update
accept-IsAhead a sig s = ground arith

closing-IsAhead : (s : ChannelState) → AheadOf s (closing_update (some s))
unfolding closing_update
closing-IsAhead s = ground arith

abort-IsAhead : (s : ChannelState) → AheadOf s (abort_update (some s))
unfolding abort_update
abort-IsAhead s = ground arith

finalize-IsAhead :
    (c : OnChainChannel) (a : ℕ) (sig : Bytes) (s : ChannelState)
    → AheadOf s (finalize_update c a sig (some s))
unfolding finalize_update
finalize-IsAhead c a sig s = ground arith

Issued-IsAhead :
    (x : Externs) (k : String) (s : ChannelState) {u : Updater}
    → Issued x Anyone k u
    → IsSolvent k s
    → AheadOf s (u (some s))
Issued-IsAhead x k s (deduct amount small) h = deduct-IsAhead k amount s h
Issued-IsAhead x k s (opening o c) h = open-IsAhead o s
Issued-IsAhead x k s (topping_up c t) h = top_up-IsAhead c s
Issued-IsAhead x k s (refresh c t) h = refresh-IsAhead c s
Issued-IsAhead x k s (accept a sig t signed) h = accept-IsAhead a sig s
Issued-IsAhead x k s mark h = closing-IsAhead s
Issued-IsAhead x k s unmark h = abort-IsAhead s
Issued-IsAhead x k s (finish c a sig t small fits signed) h = finalize-IsAhead c a sig s

IsAhead-trans : (s t u : ChannelState) → IsAhead s t → IsAhead t u → IsAhead s u
IsAhead-trans s t u p q = ground arith

IsAhead-refl : (s : ChannelState) → IsAhead s s
IsAhead-refl s = ground arith

-- Every channel of the first store is in the second, and ahead.
abbrev pub IsLater : Channels → Channels → Type 0
IsLater m n =
    (k : String) (s : ChannelState)
    → m k ≡ some s
    → (t : ChannelState) × (n k ≡ some t) × IsAhead s t

store_result-some :
    (k : String) (s : ChannelState) (r : Result (Option ChannelState)) (m : Channels)
    → m k ≡ some s
    → AheadOf s r
    → (t : ChannelState) × (store_result k r m k ≡ some t) × IsAhead s t
store_result-some k s (ok (some t)) m e h = (t, rw ((eq_iff k k).1 refl), h)
store_result-some k s (ok none) m e h = absurd h
store_result-some k s (err _) m e h = (s, e, IsAhead-refl s)

store_result-other :
    (k j : String) (r : Result (Option ChannelState)) (m : Channels)
    → str_eq k j ≡ false
    → store_result k r m j ≡ m j
store_result-other k j (ok (some t)) m e = rw e
store_result-other k j (ok none) m e = rw e
store_result-other k j (err _) m e = refl

module _ (x : Externs) (first : Channels) where
  abbrev Inv : Channels → Type 0
  Inv m = Holds IsSolvent m × IsLater first m

  same_key :
      (k j : String) (u : Updater) (m : Channels) (s t : ChannelState)
      → k ≡ j
      → Issued x Anyone k u
      → Holds IsSolvent m
      → m j ≡ some t
      → IsAhead s t
      → (v : ChannelState) × (store_result k (u (m k)) m j ≡ some v) × IsAhead s v
  same_key k j u m s t e i solvent at_j ahead =
      let at_k : m k ≡ some t = rw e at_j in
      let (v, at_v, on) =
        store_result-some k t (u (m k)) m at_k
          (rw at_k (Issued-IsAhead x k t i (solvent k t at_k))) in
      (v, rw (← e) at_v, IsAhead-trans s t v ahead on)

  later_step :
      (k j : String) (u : Updater) (m : Channels) (s t : ChannelState)
      → Issued x Anyone k u
      → Holds IsSolvent m
      → m j ≡ some t
      → IsAhead s t
      → (v : ChannelState) × (store_result k (u (m k)) m j ≡ some v) × IsAhead s v
  later_step k j u m s t i solvent e ahead = elim (Bool-cases (str_eq k j)) [
    | inl same ↦ same_key k j u m s t ((eq_iff k j).0 same) i solvent e ahead
    | inr other ↦ (t, store_result-other k j (u (m k)) m other ∙ e, ahead)
  ]

  keeps-Inv :
      (k : String) (u : Updater) (m : Channels)
      → Issued x Anyone k u
      → Inv m
      → Inv (store_result k (u (m k)) m)
  keeps-Inv k u m i (solvent, later) = (
    keeps-IsSolvent x k u m i solvent,
    λ j s e. let (t, at_t, ahead) = later j s e in later_step k j u m s t i solvent at_t ahead,
  )

-- However requests and deductions interleave, and whatever the chain answers, no stored channel goes
-- away: from solvent channels, each one is still in the store with the same parties, contract and
-- identity, and its settled amount, its highest voucher and its charges have not fallen.
pub after-IsLater :
    (x : Externs) (m : SessionMethod) (moves : List (ℕ × World)) (rs : List Request)
    (store : Channels)
    → All (λ (move : ℕ × World). IsTypedWorld move.1) moves
    → All IsTypedRequest rs
    → Holds IsSolvent store
    → IsLater store (after x m moves rs store)
after-IsLater x m moves rs store tw tr h =
    (after-typed x m (keeps-Inv x store) moves rs store tw tr
      (h, λ k s e. (s, e, IsAhead-refl s))).1
