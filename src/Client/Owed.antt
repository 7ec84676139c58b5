-- ===== src/Client/Owed.antt =====
-- What the payer owes on a channel after any operations of src/client/tempo/session/mod.rs.
use mpp_rs.Prelude.{◌+◌, ◌≤◌, ◌<◌, Text, true, some, List, [], ◌∷◌, ◌≡◌, refl, ◌∙◌, arith, u128_mod}
use mpp_rs.Client.Types.{ChannelEntry, Wallet, TempoSessionProvider, lookup, Registry}
use mpp_rs.Client.Ops.{
  ClientOp, paying, sending, asked, all_asked, IsOpenAt, Kept, apply_op, apply_ops,
}
use mpp_rs.Client.Raises.{pay-Kept, send_voucher-Kept}

module _ (p : TempoSessionProvider) where
  apply_op-Kept :
      (op : Wallet × ClientOp) (key : Text) (before : ChannelEntry) (r : Registry)
      → IsOpenAt key before r
      → before.cumulative_amount + asked op < u128_mod
      → Kept key (asked op) before (apply_op p op r)
  unfolding apply_op
  apply_op-Kept (x, paying challenge) key before r h fits =
      pay-Kept x p challenge key before r h fits
  apply_op-Kept (x, sending url id required) key before r h fits =
      send_voucher-Kept x p url id required key before r h

  -- Payments and vouchers, one after the other and whatever the chain and the servers answer, leave an
  -- open channel of the registry open and of the same id; its signed amount never falls, and rises by
  -- no more than the sum of what the challenges and the voucher requests ask, if that sum fits a `u128`
  -- with it.
  pub apply_ops-Raised :
      (ops : List (Wallet × ClientOp)) (key : Text) (before : ChannelEntry) (r : Registry)
      → lookup key r.channels ≡ some before
      → before.opened ≡ true
      → before.cumulative_amount + all_asked ops < u128_mod
      → (after : ChannelEntry) × (lookup key (apply_ops p ops r).channels ≡ some after)
        × (after.opened ≡ true)
        × (after.channel_id ≡ before.channel_id)
        × (before.cumulative_amount ≤ after.cumulative_amount)
        × (after.cumulative_amount ≤ before.cumulative_amount + all_asked ops)
  unfolding apply_ops
  apply_ops-Raised [] key before r there is_open fits =
      (before, there, is_open, refl, omega arith, omega arith)
  apply_ops-Raised (op ∷ ops) key before r there is_open fits =
      let (middle, (there', is_open'), (id, least, most)) =
        apply_op-Kept op key before r (there, is_open) (omega arith) in
      let (after, found, is_open'', id', least', most') =
        apply_ops-Raised ops key middle (apply_op p op r) there' is_open' (omega arith) in
      (after, found, is_open'', id' ∙ id, omega arith, omega arith)
