-- ===== src/Session/Authentic.antt =====
-- Every voucher that the store holds was verified: the signature beside the highest amount is the
-- channel's signer's, for that amount on that channel.
use mpp_rs.Prelude.{
  ℕ, ◌-◌, ◌≡◌, refl, inl, inr, true, String, Option, none, some, List, All, ltb, leb, Bool-cases,
}
use mathlib.Core.Path.{subst}
use mpp_rs.Error.{Result, ok, err}
use mpp_rs.Voucher.{Address, B256, Bytes, verify_voucher}
use mpp_rs.Session.Task.{Call, Reply, get_channel}
use mpp_rs.Session.Types.{ChannelState, OnChainChannel}
use mpp_rs.Session.Updates.{
  Updater, Opening, deduct_update, open_update, top_up_update, refresh_update, accept_update,
  closing_update, abort_update, finalize_update,
}
use mpp_rs.Session.Store.{
  Channels, World, store_result, Holds, HoldsAt, HoldsOf, Holds-at, store_result-Holds,
}
use mpp_rs.Session.Issues.{IsTypedResult, IsTypedWorld, HeardResult, IsWorld}
use mpp_rs.Session.Externs.{Externs}
use mpp_rs.Session.Method.{SessionMethod, parse_channel_id, effective_signer}
use mpp_rs.Session.Server.{Request, IsTypedRequest, after, after-Inv, each_world}
use mpp_rs.Session.Issued.{
  Issued, IsSigned, deduct, opening, topping_up, refresh, accept, mark, unmark, finish, rules, Told,
}

-- The chain gives each channel one signer: its answers for a channel's id agree on it.
pub record AgreesOnSigner (signer_of : B256 → Address) (w : World) : Type 0 where
  pub at :
      (escrow : Address) (id : B256) (r : OnChainChannel)
      → w (get_channel escrow id) ≡ ok r
      → effective_signer r ≡ signer_of id

parsed_once : {r : Result B256} {a b : B256} → r ≡ ok a → r ≡ ok b → a ≡ b
parsed_once p q = cc

module _ (x : Externs) (signer_of : B256 → Address) where
  abbrev pub BySigner : String → Address → Type 0
  BySigner k signer = (id : B256) → parse_channel_id x k ≡ ok id → signer ≡ signer_of id

  -- A signature for the amount is the signer's, under some escrow contract and chain.
  abbrev pub HasVoucher : String → ℕ → Option Bytes → Type 0
  HasVoucher k amount held =
      (id : B256)
      → parse_channel_id x k ≡ ok id
      → (sig : Bytes) → held ≡ some sig
      → (escrow : Address) × (chain_id : ℕ) × (verify_voucher x.recover escrow chain_id id amount
            sig (signer_of id)
          ≡ true)

  abbrev pub IsAuthentic : String → ChannelState → Type 0
  IsAuthentic k s =
      BySigner k s.authorized_signer
      × HasVoucher k s.highest_voucher_amount s.highest_voucher_signature

  -- The voucher of a state that has just taken it.
  new_voucher :
      (k : String) (amount : ℕ) (sig : Bytes)
      → IsSigned x BySigner k amount sig
      → HasVoucher k amount (some sig)
  new_voucher k amount sig h id parsed sig' e =
      let same : sig ≡ sig' = cc in
      let same_id : h.id ≡ id = parsed_once h.parsed parsed in
      (
        h.escrow,
        h.chain_id,
        rw (← same) (
            rw (← same_id) (
              subst
                (λ (a : Address).
                  verify_voucher x.recover h.escrow h.chain_id h.id amount sig a ≡ true)
                (h.is_known h.id h.parsed) h.verified)),
      )

  module _ (k : String) where
    deduct-IsAuthentic :
        (amount : ℕ) (o : Option ChannelState)
        → HoldsAt IsAuthentic k o
        → HoldsOf IsAuthentic k (deduct_update amount o)
    unfolding deduct_update
    deduct-IsAuthentic amount none h = tt
    deduct-IsAuthentic amount (some s) h = elim (Bool-cases s.finalized) [
      | inl done ↦ rw done tt
      | inr live ↦ elim (Bool-cases s.closing) [
        | inl shut ↦ rw (live, shut) tt
        | inr open_still ↦ elim (Bool-cases (leb amount (s.highest_voucher_amount - s.spent))) [
          | inl covered ↦ rw (live, open_still, covered) h
          | inr short ↦ rw (live, open_still, short) tt
        ]
      ]
    ]

    open-IsAuthentic :
        (opn : Opening) (o : Option ChannelState)
        → BySigner k opn.authorized_signer
        → IsSigned x BySigner k opn.cumulative_amount opn.sig_bytes
        → HoldsAt IsAuthentic k o
        → HoldsOf IsAuthentic k (open_update opn o)
    unfolding open_update
    open-IsAuthentic opn none known c h =
        (known, new_voucher k opn.cumulative_amount opn.sig_bytes c)
    open-IsAuthentic opn (some s) known c h =
        elim (Bool-cases (ltb s.highest_voucher_amount opn.cumulative_amount)) [
          | inl higher ↦ rw higher (known, new_voucher k opn.cumulative_amount opn.sig_bytes c)
          | inr stale ↦ rw stale (known, h.1)
        ]

    snapshot-IsAuthentic :
        (c : OnChainChannel) (o : Option ChannelState)
        → HoldsAt IsAuthentic k o
        → HoldsOf IsAuthentic k (top_up_update c o) × HoldsOf IsAuthentic k (refresh_update c o)
    unfolding top_up_update refresh_update
    snapshot-IsAuthentic c none h = (tt, tt)
    snapshot-IsAuthentic c (some s) h = (h, h)

    accept-IsAuthentic :
        (amount : ℕ) (sig : Bytes) (o : Option ChannelState)
        → IsSigned x BySigner k amount sig
        → HoldsAt IsAuthentic k o
        → HoldsOf IsAuthentic k (accept_update amount sig o)
    unfolding accept_update
    accept-IsAuthentic amount sig none c h = tt
    accept-IsAuthentic amount sig (some s) c h =
        elim (Bool-cases (ltb s.highest_voucher_amount amount)) [
          | inl higher ↦ rw higher (h.0, new_voucher k amount sig c)
          | inr stale ↦ rw stale h
        ]

    closing-IsAuthentic :
        (o : Option ChannelState)
        → HoldsAt IsAuthentic k o
        → HoldsOf IsAuthentic k (closing_update o)
    unfolding closing_update
    closing-IsAuthentic none h = tt
    closing-IsAuthentic (some s) h = elim (Bool-cases s.finalized) [
      | inl done ↦ rw done tt
      | inr live ↦ elim (Bool-cases s.closing) [
        | inl shut ↦ rw (live, shut) tt
        | inr open_still ↦ rw (live, open_still) h
      ]
    ]

    abort-IsAuthentic :
        (o : Option ChannelState) → HoldsAt IsAuthentic k o → HoldsOf IsAuthentic k (abort_update o)
    unfolding abort_update
    abort-IsAuthentic none h = tt
    abort-IsAuthentic (some s) h = elim (Bool-cases s.finalized) [
      | inl done ↦ rw done h
      | inr live ↦ rw live h
    ]

    finalize-IsAuthentic :
        (c : OnChainChannel) (amount : ℕ) (sig : Bytes) (o : Option ChannelState)
        → IsSigned x BySigner k amount sig
        → HoldsAt IsAuthentic k o
        → HoldsOf IsAuthentic k (finalize_update c amount sig o)
    unfolding finalize_update
    finalize-IsAuthentic c amount sig none g h = tt
    finalize-IsAuthentic c amount sig (some s) g h =
        elim (Bool-cases (ltb s.highest_voucher_amount amount)) [
          | inl higher ↦ rw higher (h.0, new_voucher k amount sig g)
          | inr stale ↦ rw stale h
        ]

    Issued-IsAuthentic :
        (o : Option ChannelState) {u : Updater}
        → Issued x BySigner k u
        → HoldsAt IsAuthentic k o
        → HoldsOf IsAuthentic k (u o)
    Issued-IsAuthentic o (deduct amount small) h = deduct-IsAuthentic amount o h
    Issued-IsAuthentic o (opening opn c) h = open-IsAuthentic opn o c.signer c.signed h
    Issued-IsAuthentic o (topping_up c t) h = (snapshot-IsAuthentic c o h).0
    Issued-IsAuthentic o (refresh c t) h = (snapshot-IsAuthentic c o h).1
    Issued-IsAuthentic o (accept amount sig t signed) h = accept-IsAuthentic amount sig o signed h
    Issued-IsAuthentic o mark h = closing-IsAuthentic o h
    Issued-IsAuthentic o unmark h = abort-IsAuthentic o h
    Issued-IsAuthentic o (finish c amount sig t small fits signed) h =
        finalize-IsAuthentic c amount sig o signed h

  keeps-IsAuthentic :
      (k : String) (u : Updater) (m : Channels)
      → Issued x BySigner k u
      → Holds IsAuthentic m
      → Holds IsAuthentic (store_result k (u (m k)) m)
  keeps-IsAuthentic k u m i h =
      store_result-Holds IsAuthentic k (u (m k)) m
        (Issued-IsAuthentic k (m k) i (Holds-at IsAuthentic k m h)) h

module _ (x : Externs) (signer_of : B256 → Address) (w : World)
    (agrees : AgreesOnSigner signer_of w) where
  agrees-Told : (c : Call) (r : Reply c) → w c ≡ ok r → Told x (BySigner x signer_of) c r
  agrees-Told (Call.send_raw_transaction tx) r e = tt
  agrees-Told (Call.get_receipt pending) r e = tt
  agrees-Told (Call.get_channel escrow id) r e = λ k parsed id' parsed'.
      subst (λ (i : B256). effective_signer r ≡ signer_of i) (parsed_once parsed parsed')
        (agrees.at escrow id r e)
  agrees-Told (Call.get_transaction_count account) r e = tt
  agrees-Told Call.get_gas_price r e = tt

  agrees-HeardResult :
      (c : Call) (q : Result (Reply c))
      → w c ≡ q
      → IsTypedResult c q
      → HeardResult (rules x (BySigner x signer_of)) c q
  agrees-HeardResult c (ok r) e t = (t, agrees-Told c r e)
  agrees-HeardResult c (err reason) e t = tt

  agrees-IsWorld : IsTypedWorld w → IsWorld (rules x (BySigner x signer_of)) w
  agrees-IsWorld t = record { at = λ c. agrees-HeardResult c (w c) refl (t.at c) }

-- However requests and deductions interleave, from a store in which it is so, every channel of the store
-- has the authorized signer that the chain has for the id of its key, and the signature beside its
-- highest voucher amount passed `verify_voucher` with this signer, for that amount and that channel id,
-- under some escrow contract and chain. The chain may answer anything, if its answers for a channel's
-- id agree on who signs for it: an id is a hash that the signer goes into.
pub after-IsAuthentic :
    (x : Externs) (signer_of : B256 → Address) (m : SessionMethod) (moves : List (ℕ × World))
    (rs : List Request) (store : Channels)
    → All (λ (move : ℕ × World). IsTypedWorld move.1 × AgreesOnSigner signer_of move.1) moves
    → All IsTypedRequest rs
    → Holds (IsAuthentic x signer_of) store
    → Holds (IsAuthentic x signer_of) (after x m moves rs store)
after-IsAuthentic x signer_of m moves rs store tw tr h =
    after-Inv x m (BySigner x signer_of) (keeps-IsAuthentic x signer_of)
      (λ c held k s e. (held k s e).0) moves rs store
      (each_world (λ w t. agrees-IsWorld x signer_of w t.1 t.0) moves tw) tr h
