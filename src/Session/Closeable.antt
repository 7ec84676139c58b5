-- ===== src/Session/Closeable.antt =====
-- The checks, the ends and the parts of `handle_close` in
-- src/protocol/methods/tempo/session_method.rs.
use mpp_rs.Prelude.{
  ℕ, ◌≤◌, ◌<◌, ◌≡◌, refl, ◌⊎◌, inl, inr, String, true, false, Option, none, some, ltb, Bool-cases,
  str_eq, eq_iff, if◌then◌else◌, arith,
}
use mpp_rs.Error.{Result, ok, err, VerificationError}
use mpp_rs.Voucher.{Address, B256, Bytes, verify_voucher}
use mpp_rs.Session.Types.{
  ChannelState, OnChainChannel, TempoSessionMethodDetails, VoucherPayload, Receipt, method_name,
}
use mpp_rs.Session.Updates.{closing_update, finalize_update, validate_close_amount}
use mpp_rs.Session.Task.{
  Task, get_transaction_count, get_gas_price, send_raw_transaction, get_receipt, get_channel, ◌>>=◌,
  ret,
}
use mpp_rs.Session.Store.{Channels, World, insert, run}
use mpp_rs.Session.Externs.{Externs}
use mpp_rs.Session.Method.{
  SessionMethod, parse_channel_id, parse_signature, resolve_escrow, resolve_chain_id,
  u128_or_invalid, submit_close, close_hash,
}
use mpp_rs.Session.Run.{run-some_or_fail, run-ask, run-part}

abbrev pub marked : ChannelState → ChannelState
marked c = record c { closing = true }

-- The channel that a close with this amount and signature leaves.
abbrev pub final : OnChainChannel → ℕ → Bytes → ChannelState → ChannelState
final on_chain amount sig c = record c {
  deposit = on_chain.deposit;
  highest_voucher_amount =
      if ltb c.highest_voucher_amount amount then amount else c.highest_voucher_amount;
  highest_voucher_signature =
      if ltb c.highest_voucher_amount amount then some sig else c.highest_voucher_signature;
  finalized = true;
  closing = false;
}

-- The end of `submit_close`: it never returns an error as its value, and never touches the store.
abbrev IsSubmitted : Channels → Result (Result (Option String)) × Channels → Type 0
IsSubmitted s (ok (ok hash), t) = t ≡ s
IsSubmitted s (ok (err e), t) = ⊥
IsSubmitted s (err e, t) = t ≡ s

module _ (x : Externs) (w : World) (s : Channels) where
  submit_close-IsSubmitted :
      (signer : Option Address) (chain_id : ℕ) (escrow : Address) (id : B256) (amount : ℕ)
      (sig : Bytes)
      → IsSubmitted s (run w (submit_close x signer chain_id escrow id amount sig) s)
  unfolding submit_close run
  submit_close-IsSubmitted none chain_id escrow id amount sig = refl
  submit_close-IsSubmitted (some signer) chain_id escrow id amount sig =
      run-ask w (IsSubmitted s) (get_transaction_count signer) _ _ s (λ _ _. refl)
        λ nonce _.
          run-ask w (IsSubmitted s) get_gas_price _ _ s (λ _ _. refl)
            λ gas _.
              run-some_or_fail w (IsSubmitted s) _ _ _ s (λ _. refl)
                λ tx _.
                  run-ask w (IsSubmitted s) (send_raw_transaction tx) _ _ s (λ _ _. refl)
                    λ pending _.
                      run-ask w (IsSubmitted s) (get_receipt pending) _ _ s (λ _ _. refl)
                        λ receipt _. refl

module _ (x : Externs) (w : World) (Q : Result Receipt × Channels → Type 0) where
  pub run-submit :
      (signer : Option Address) (chain_id : ℕ) (escrow : Address) (id : B256) (amount : ℕ)
      (sig : Bytes) (f : Result (Option String) → Task Receipt) (s : Channels)
      → ((e : VerificationError) → Q (err e, s))
      → ((hash : Option String) → Q (run w (f (ok hash)) s))
      → Q (run w (submit_close x signer chain_id escrow id amount sig >>= f) s)
  run-submit signer chain_id escrow id amount sig f s bad good =
      run-part w Q task f s (λ e t ended. by_error e t (rw ended at shape))
        (λ r t ended. by_value r t (rw ended at shape))
    where
      task : Task (Result (Option String))
      task = submit_close x signer chain_id escrow id amount sig

      shape : IsSubmitted s (run w task s)
      shape = submit_close-IsSubmitted x w s signer chain_id escrow id amount sig

      by_error : (e : VerificationError) (t : Channels) → IsSubmitted s (err e, t) → Q (err e, t)
      by_error e t same = rw same (bad e)

      by_value :
          (r : Result (Option String)) (t : Channels) → IsSubmitted s (ok r, t) → Q (run w (f r) t)
      by_value (ok hash) t same = rw same (good hash)
      by_value (err e) t same = absurd same

module _ (x : Externs) (m : SessionMethod) (p : VoucherPayload)
    (details : TempoSessionMethodDetails) (payee token : Address) (w : World)
    (store : Channels) where
  -- What a close has passed when it marks the channel.
  pub record IsCloseable (before : ChannelState) (on_chain : OnChainChannel) (amount : ℕ)
      (sig : Bytes) : Type 0 where
    pub escrow : Address
    pub id : B256
    pub stored : store p.channel_id ≡ some before
    pub parties : (before.payee ≡ payee) × (before.token ≡ token)
    pub usable : (before.finalized ≡ false) × (before.closing ≡ false)
    pub amount_parsed : u128_or_invalid p.cumulative_amount ≡ ok amount
    pub parsed : parse_channel_id x p.channel_id ≡ ok id
    pub resolved : resolve_escrow x details ≡ ok escrow
    pub answered : w (get_channel escrow id) ≡ ok on_chain
    pub live : on_chain.finalized ≡ false
    pub bounds : (before.spent ≤ amount) × (on_chain.settled < amount) × (amount ≤ on_chain.deposit)
    pub sig_parsed : parse_signature x p.signature ≡ ok sig
    pub verified :
        verify_voucher x.recover escrow
          (resolve_chain_id m details)
          id
          amount
          sig
          before.authorized_signer
        ≡ true

  abbrev pub marked_store : ChannelState → Channels
  marked_store before = insert p.channel_id (marked before) store

  abbrev pub submission : Address → B256 → ℕ → Bytes → Task (Result (Option String))
  submission escrow id amount sig =
      submit_close x m.close_signer (resolve_chain_id m details) escrow id amount sig

  -- The close went through: the channel is final, with the larger of the two vouchers.
  pub record IsClosed (r : Receipt) (end : Channels) : Type 0 where
    pub before : ChannelState
    pub on_chain : OnChainChannel
    pub amount : ℕ
    pub sig : Bytes
    pub passed : IsCloseable before on_chain amount sig
    pub method : r.method ≡ method_name
    pub left : (j : String) → end j ≡ insert p.channel_id (final on_chain amount sig before) store j

  -- The close failed behind the mark, which stays.
  pub record IsStranded (end : Channels) : Type 0 where
    pub before : ChannelState
    pub on_chain : OnChainChannel
    pub amount : ℕ
    pub sig : Bytes
    pub passed : IsCloseable before on_chain amount sig
    pub left : (j : String) → end j ≡ marked_store before j

  abbrev pub CloseOutcome : Result Receipt × Channels → Type 0
  CloseOutcome (ok r, end) = IsClosed r end
  CloseOutcome (err e, end) = ((j : String) → end j ≡ store j) ⊎ IsStranded end

module _ (x : Externs) (w : World) (Q : Result Receipt × Channels → Type 0) where
  pub run-close_hash :
      (k : String) (hash : Option String) (f : Option String → Task Receipt) (s : Channels)
      → Q (run w (f hash) s)
      → Q (run w (close_hash x k (ok hash) >>= f) s)
  unfolding close_hash ◌>>=◌
  run-close_hash k hash f s h = h

pub ret_end :
    (w : World) (Q : Result Receipt × Channels → Type 0) (r : Receipt) (t : Channels)
    → Q (ok r, t)
    → Q (run w (ret r) t)
unfolding run
ret_end w Q r t h = h

pub mark-ok :
    (o o' : Option ChannelState) (b : ChannelState)
    → o ≡ some b
    → closing_update o ≡ ok o'
    → (b.finalized ≡ false) × (b.closing ≡ false) × (o' ≡ some (marked b))
unfolding closing_update
mark-ok o o' b stored e = ground arith

pub finalize-marked :
    (c : OnChainChannel) (amount : ℕ) (sig : Bytes) (b : ChannelState) (o : Option ChannelState)
    → o ≡ some (marked b)
    → finalize_update c amount sig o ≡ ok (some (final c amount sig b))
unfolding finalize_update
finalize-marked c amount sig b o e = rw e

pub insert_self : (k : String) (c : ChannelState) (s : Channels) → insert k c s k ≡ some c
insert_self k c s = rw ((eq_iff k k).1 refl)

pub insert-insert :
    (k j : String) (a b : ChannelState) (s : Channels)
    → insert k b (insert k a s) j ≡ insert k b s j
insert-insert k j a b s = elim (Bool-cases (str_eq k j)) [ inl e ↦ rw e | inr e ↦ rw e ]

pub close_bounds :
    (a spent settled deposit : ℕ) {u : Unit {0}}
    → validate_close_amount a spent settled deposit ≡ ok u
    → (spent ≤ a) × (settled < a) × (a ≤ deposit)
unfolding validate_close_amount
close_bounds a spent settled deposit e = ground arith
