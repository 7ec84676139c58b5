-- ===== src/Session/Issued.antt =====
-- The updates that the handlers of src/protocol/methods/tempo/session_method.rs make, each with what was
-- checked before it.
use mpp_rs.Prelude.{ℕ, ◌≤◌, ◌<◌, ◌≡◌, String, true, false, u128_mod}
use mpp_rs.Error.{Result, ok, err}
use mpp_rs.Voucher.{Address, B256, Bytes, verify_voucher}
use mpp_rs.Session.Types.{OnChainChannel}
use mpp_rs.Session.Updates.{
  Updater, Opening, deduct_update, open_update, top_up_update, refresh_update, accept_update,
  closing_update, abort_update, finalize_update,
}
use mpp_rs.Session.Externs.{Externs}
use mpp_rs.Session.Task.{Call, Reply}
use mpp_rs.Session.Store.{World}
use mpp_rs.Session.Issues.{Rules, IsTyped, IsTypedResult, IsTypedWorld, HeardResult, IsWorld}
use mpp_rs.Session.Method.{parse_channel_id, effective_signer}

module _ (x : Externs) (known : String → Address → Type 0) where
  -- The signature is one of the signer's, for the amount, on the channel of this key, and the signer is
  -- known to be the channel's.
  pub record IsSigned (k : String) (amount : ℕ) (sig : Bytes) : Type 0 where
    pub id : B256
    pub escrow : Address
    pub chain_id : ℕ
    pub signer : Address
    pub is_known : known k signer
    pub parsed : parse_channel_id x k ≡ ok id
    pub verified : verify_voucher x.recover escrow chain_id id amount sig signer ≡ true

  pub record IsChecked (k : String) (o : Opening) : Type 0 where
    pub key : o.channel_id ≡ k
    pub typed : (o.on_chain.deposit < u128_mod) × (o.on_chain.settled < u128_mod)
    pub amount_typed : o.cumulative_amount < u128_mod
    pub settled : o.on_chain.settled ≤ o.cumulative_amount
    pub funded : o.cumulative_amount ≤ o.on_chain.deposit
    pub live : (o.on_chain.finalized ≡ false) × (o.on_chain.close_requested_at ≡ 0)
    pub signer : known k o.authorized_signer
    pub signed : IsSigned k o.cumulative_amount o.sig_bytes

  pub data Issued (k : String) : Updater → Type 0 where
    deduct : (amount : ℕ) → amount < u128_mod → Issued k (deduct_update amount)
    opening : (o : Opening) → IsChecked k o → Issued k (open_update o)
    topping_up :
        (c : OnChainChannel)
        → (c.deposit < u128_mod) × (c.settled < u128_mod)
        → Issued k (top_up_update c)
    refresh :
        (c : OnChainChannel)
        → (c.deposit < u128_mod) × (c.settled < u128_mod)
        → Issued k (refresh_update c)
    accept :
        (amount : ℕ) (sig : Bytes)
        → amount < u128_mod
        → IsSigned k amount sig
        → Issued k (accept_update amount sig)
    mark : Issued k closing_update
    unmark : Issued k abort_update
    finish :
        (c : OnChainChannel) (amount : ℕ) (sig : Bytes)
        → (c.deposit < u128_mod) × (c.settled < u128_mod)
        → amount < u128_mod
        → amount ≤ c.deposit
        → IsSigned k amount sig
        → Issued k (finalize_update c amount sig)

-- What is heard of the chain: its numbers are `u128`s, and the signer of a channel is the known one.
module _ (x : Externs) (known : String → Address → Type 0) where
  abbrev pub Told : (c : Call) → Reply c → Type 0
  Told (Call.send_raw_transaction tx) r = Unit
  Told (Call.get_receipt pending) r = Unit
  Told (Call.get_channel escrow id) r =
      (k : String) → parse_channel_id x k ≡ ok id → known k (effective_signer r)
  Told (Call.get_transaction_count account) r = Unit
  Told Call.get_gas_price r = Unit

  abbrev pub rules : Rules
  rules = record {
    stored = λ k s. known k s.authorized_signer;
    heard = λ c r. IsTyped c r × Told c r;
    issued = Issued x known;
  }

-- With nothing known of signers.
abbrev pub Anyone : String → Address → Type 0
Anyone k signer = Unit

Anyone-Told : (x : Externs) (c : Call) (r : Reply c) → Told x Anyone c r
Anyone-Told x (Call.send_raw_transaction tx) r = tt
Anyone-Told x (Call.get_receipt pending) r = tt
Anyone-Told x (Call.get_channel escrow id) r = λ k parsed. tt
Anyone-Told x (Call.get_transaction_count account) r = tt
Anyone-Told x Call.get_gas_price r = tt

Anyone-HeardResult :
    (x : Externs) (c : Call) (r : Result (Reply c))
    → IsTypedResult c r
    → HeardResult (rules x Anyone) c r
Anyone-HeardResult x c (ok r) t = (t, Anyone-Told x c r)
Anyone-HeardResult x c (err e) t = tt

pub IsTypedWorld-IsWorld : (x : Externs) (w : World) → IsTypedWorld w → IsWorld (rules x Anyone) w
IsTypedWorld-IsWorld x w t = record { at = λ c. Anyone-HeardResult x c (w c) (t.at c) }
