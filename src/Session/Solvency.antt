-- ===== src/Session/Solvency.antt =====
-- No overspending: what a server charges on a channel stays within the vouchers that it holds, under
-- any interleaving of requests and deductions and whatever the chain answers.
use mpp_rs.Prelude.{
  ℕ, ◌≤◌, ◌<◌, max, String, Option, none, some, List, All, u128_mod, arith, add_u128-eq_add,
}
use mpp_rs.Voucher.{Bytes}
use mpp_rs.Session.Types.{ChannelState, OnChainChannel}
use mpp_rs.Session.Updates.{
  Updater, Opening, deduct_update, open_update, top_up_update, refresh_update, accept_update,
  closing_update, abort_update, finalize_update,
}
use mpp_rs.Session.Store.{
  Channels, World, store_result, Holds, HoldsAt, HoldsOf, Holds-at, store_result-Holds,
}
use mpp_rs.Session.Issues.{IsTypedWorld}
use mpp_rs.Session.Externs.{Externs}
use mpp_rs.Session.Method.{SessionMethod}
use mpp_rs.Session.Server.{Request, IsTypedRequest, after, after-typed}
use mpp_rs.Session.Issued.{
  Issued, deduct, opening, topping_up, refresh, accept, mark, unmark, finish, IsChecked, Anyone,
}

-- The charges cover what is settled, and are covered by the highest voucher or by the settlement.
pub record IsSolvent (k : String) (s : ChannelState) : Type 0 where
  pub settled : s.settled_on_chain ≤ s.spent
  pub covered : s.spent ≤ max s.highest_voucher_amount s.settled_on_chain
  pub typed : (s.highest_voucher_amount < u128_mod) × (s.settled_on_chain < u128_mod)

module _ (k : String) where
  deduct-IsSolvent :
      (amount : ℕ) (o : Option ChannelState)
      → HoldsAt IsSolvent k o
      → HoldsOf IsSolvent k (deduct_update amount o)
  unfolding deduct_update
  deduct-IsSolvent amount none h = tt
  deduct-IsSolvent amount (some s) h = ground (arith, add_u128-eq_add s.spent amount)

  open-IsSolvent :
      (x : Externs) (opn : Opening) (o : Option ChannelState)
      → IsChecked x Anyone k opn
      → HoldsAt IsSolvent k o
      → HoldsOf IsSolvent k (open_update opn o)
  unfolding open_update
  open-IsSolvent x opn none c h = ground arith
  open-IsSolvent x opn (some s) c h = ground arith

  top_up-IsSolvent :
      (c : OnChainChannel) (o : Option ChannelState)
      → c.settled < u128_mod
      → HoldsAt IsSolvent k o
      → HoldsOf IsSolvent k (top_up_update c o)
  unfolding top_up_update
  top_up-IsSolvent c none t h = tt
  top_up-IsSolvent c (some s) t h = ground arith

  refresh-IsSolvent :
      (c : OnChainChannel) (o : Option ChannelState)
      → c.settled < u128_mod
      → HoldsAt IsSolvent k o
      → HoldsOf IsSolvent k (refresh_update c o)
  unfolding refresh_update
  refresh-IsSolvent c none t h = tt
  refresh-IsSolvent c (some s) t h = ground arith

  accept-IsSolvent :
      (amount : ℕ) (sig : Bytes) (o : Option ChannelState)
      → amount < u128_mod
      → HoldsAt IsSolvent k o
      → HoldsOf IsSolvent k (accept_update amount sig o)
  unfolding accept_update
  accept-IsSolvent amount sig none t h = tt
  accept-IsSolvent amount sig (some s) t h = ground arith

  closing-IsSolvent :
      (o : Option ChannelState) → HoldsAt IsSolvent k o → HoldsOf IsSolvent k (closing_update o)
  unfolding closing_update
  closing-IsSolvent none h = tt
  closing-IsSolvent (some s) h = ground arith

  abort-IsSolvent :
      (o : Option ChannelState) → HoldsAt IsSolvent k o → HoldsOf IsSolvent k (abort_update o)
  unfolding abort_update
  abort-IsSolvent none h = tt
  abort-IsSolvent (some s) h = ground arith

  finalize-IsSolvent :
      (c : OnChainChannel) (amount : ℕ) (sig : Bytes) (o : Option ChannelState)
      → amount < u128_mod
      → HoldsAt IsSolvent k o
      → HoldsOf IsSolvent k (finalize_update c amount sig o)
  unfolding finalize_update
  finalize-IsSolvent c amount sig none t h = tt
  finalize-IsSolvent c amount sig (some s) t h = ground arith

module _ (x : Externs) where
  Issued-IsSolvent :
      (k : String) (o : Option ChannelState) {u : Updater}
      → Issued x Anyone k u
      → HoldsAt IsSolvent k o
      → HoldsOf IsSolvent k (u o)
  Issued-IsSolvent k o (deduct amount small) h = deduct-IsSolvent k amount o h
  Issued-IsSolvent k o (opening opn c) h = open-IsSolvent k x opn o c h
  Issued-IsSolvent k o (topping_up c t) h = top_up-IsSolvent k c o t.1 h
  Issued-IsSolvent k o (refresh c t) h = refresh-IsSolvent k c o t.1 h
  Issued-IsSolvent k o (accept amount sig t signed) h = accept-IsSolvent k amount sig o t h
  Issued-IsSolvent k o mark h = closing-IsSolvent k o h
  Issued-IsSolvent k o unmark h = abort-IsSolvent k o h
  Issued-IsSolvent k o (finish c amount sig t small fits signed) h =
      finalize-IsSolvent k c amount sig o small h

  pub keeps-IsSolvent :
      (k : String) (u : Updater) (m : Channels)
      → Issued x Anyone k u
      → Holds IsSolvent m
      → Holds IsSolvent (store_result k (u (m k)) m)
  keeps-IsSolvent k u m i h =
      store_result-Holds IsSolvent k (u (m k)) m
        (Issued-IsSolvent k (m k) i (Holds-at IsSolvent k m h)) h

-- However requests and deductions interleave, and whatever the chain answers, a store in which every
-- channel is solvent stays so: no charge goes past the larger of the highest voucher and the settled
-- amount, no settled amount goes past the charges, and both the highest voucher and the settled amount
-- stay below 2^128. The count of units is not part of this.
pub after-IsSolvent :
    (x : Externs) (m : SessionMethod) (moves : List (ℕ × World)) (rs : List Request)
    (store : Channels)
    → All (λ (move : ℕ × World). IsTypedWorld move.1) moves
    → All IsTypedRequest rs
    → Holds IsSolvent store
    → Holds IsSolvent (after x m moves rs store)
after-IsSolvent x m moves rs store tw tr h =
    after-typed x m (keeps-IsSolvent x) moves rs store tw tr h
