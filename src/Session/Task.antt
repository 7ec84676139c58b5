-- ===== src/Session/Task.antt =====
-- An asynchronous handler of session_method.rs as a task: what it does at each point where another
-- task may run between (a read or an update of the channel store, a call of the chain's provider),
-- and how it goes on from the answer. A `?` is `fail`.
use mpp_rs.Prelude.{ℕ, String, Bool, Option, none, some, if◌then◌else◌}
use mpp_rs.Error.{Result, ok, err, VerificationError, network_error}
use mpp_rs.Voucher.{Address, B256, Bytes}
use mpp_rs.Session.Types.{ChannelState, OnChainChannel}
use mpp_rs.Session.Updates.{Updater}

-- The transaction's receipt, from `get_receipt`.
pub record TxReceipt : Type 0 where
  pub status : Bool
  pub transaction_hash : String

-- What the provider of the chain is asked; a pending transaction is known by its hash.
pub data Call : Type 0 where
  send_raw_transaction : Bytes → Call
  get_receipt : String → Call
  get_channel : Address → B256 → Call
  get_transaction_count : Address → Call
  get_gas_price : Call

abbrev pub Reply : Call → Type 0
Reply (send_raw_transaction tx) = String
Reply (get_receipt pending) = TxReceipt
Reply (get_channel escrow id) = OnChainChannel
Reply (get_transaction_count account) = ℕ
Reply get_gas_price = ℕ

pub data Task (A : Type 0) : Type 0 where
  ret : A → Task A
  fail : VerificationError → Task A
  read : String → (Result (Option ChannelState) → Task A) → Task A
  update : String → Updater → (Result (Option ChannelState) → Task A) → Task A
  call : (c : Call) → (Result (Reply c) → Task A) → Task A

module _ {A : Type 0} where
  -- `?` on a result.
  unfoldable pub lift : Result A → Task A
  lift (ok a) = ret a
  lift (err e) = fail e

  -- `map_err` and `?`.
  unfoldable pub or_fail : Result A → VerificationError → Task A
  or_fail (ok a) e = ret a
  or_fail (err _) e = fail e

  -- `ok_or_else` and `?`.
  unfoldable pub some_or_fail : Option A → VerificationError → Task A
  some_or_fail (some a) e = ret a
  some_or_fail none e = fail e

-- `if b { return Err(e) }`
unfoldable pub fail_if : Bool → VerificationError → Task (Unit {0})
fail_if b e = if b then fail e else ret tt

unfoldable pub get_channel_state : String → Task (Option ChannelState)
unfolding lift
get_channel_state k = read k lift

unfoldable pub update_channel : String → Updater → Task (Option ChannelState)
unfolding lift
update_channel k u = update k u lift

-- A call whose failure is the given error.
unfoldable pub ask : (c : Call) → VerificationError → Task (Reply c)
unfolding or_fail
ask c e = call c (λ r. or_fail r e)

-- The view call of the escrow contract.
abbrev pub get_on_chain_channel : Address → B256 → Task OnChainChannel
get_on_chain_channel escrow channel_id = ask (get_channel escrow channel_id) network_error

infixl 5 ◌>>=◌ ◌>>◌
-- Opening this opens the actions too.
unfoldable pub ◌>>=◌ : {A B : Type 0} → Task A → (A → Task B) → Task B
unfolding lift or_fail some_or_fail fail_if get_channel_state update_channel ask
ret a >>= f = f a
fail e >>= f = fail e
read k c >>= f = read k (λ r. c r >>= f)
update k u c >>= f = update k u (λ r. c r >>= f)
call q c >>= f = call q (λ r. c r >>= f)

abbrev pub ◌>>◌ : {A B : Type 0} → Task A → Task B → Task B
m >> n = m >>= λ _. n
