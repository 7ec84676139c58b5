-- ===== src/Client/Ops.antt =====
-- The operations of src/client/tempo/session/mod.rs that change the registry, and an entry that they keep.
use mpp_rs.Prelude.{
  ℕ, ◌+◌, ◌≤◌, Text, true, Option, none, some, List, [], ◌∷◌, if◌then◌else◌, ◌≡◌, refl, ◌∙◌, arith,
  bytes_eq, bytes_eq_iff, parse_codes, Bool-cases, inl, inr,
}
use mpp_rs.Server.Challenge.{PaymentChallenge}
use mpp_rs.Server.Types.{SessionRequest}
use mpp_rs.Client.Types.{ChannelEntry, Wallet, TempoSessionProvider, Dict, lookup, put, Registry}
use mpp_rs.Client.Pay.{record_entry, pay, send_voucher}

lookup-put :
    {A : Type 0} (k key : Text) (a : A) (d : Dict A)
    → lookup k (put key a d) ≡ (if bytes_eq k key then some a else lookup k d)
unfolding lookup put
lookup-put k key a [] = refl
lookup-put k key a ((j, old) ∷ d) =
    ground (arith, bytes_eq_iff k key, bytes_eq_iff key j, bytes_eq_iff k j, lookup-put k key a d)

-- The operations that change a registry, each at its own moment.
pub data ClientOp : Type 0 where
  paying : PaymentChallenge → ClientOp
  sending : Text → Text → ℕ → ClientOp

-- The amount that the challenge's request asks.
abbrev pub amount_of : Option ℕ → ℕ
amount_of none = 0
amount_of (some n) = n

abbrev pub request_amount : Option SessionRequest → ℕ
request_amount none = 0
request_amount (some request) = amount_of (parse_codes request.amount)

abbrev pub asked : Wallet × ClientOp → ℕ
asked (x, paying challenge) = request_amount (x.decode_session challenge.request)
asked (x, sending url id required) = required

abbrev pub all_asked : List (Wallet × ClientOp) → ℕ
all_asked [] = 0
all_asked (op ∷ ops) = asked op + all_asked ops

-- An open entry under a key.
abbrev pub IsOpenAt : Text → ChannelEntry → Registry → Type 0
IsOpenAt key entry r = (lookup key r.channels ≡ some entry) × (entry.opened ≡ true)

-- The entry later on: of the same channel, and raised by so much at most.
abbrev pub Raised : ℕ → ChannelEntry → ChannelEntry → Type 0
Raised most before after =
    (after.channel_id ≡ before.channel_id)
    × (before.cumulative_amount ≤ after.cumulative_amount)
    × (after.cumulative_amount ≤ before.cumulative_amount + most)

abbrev pub Kept : Text → ℕ → ChannelEntry → Registry → Type 0
Kept key most before r = (after : ChannelEntry) × IsOpenAt key after r × Raised most before after

module _ (p : TempoSessionProvider) where
  unfoldable pub apply_op : Wallet × ClientOp → Registry → Registry
  unfolding pay send_voucher
  apply_op (x, paying challenge) r = (pay x p challenge r).1
  apply_op (x, sending url id required) r = (send_voucher x p url id required r).1

  unfoldable pub apply_ops : List (Wallet × ClientOp) → Registry → Registry
  unfolding apply_op
  apply_ops [] r = r
  apply_ops (op ∷ ops) r = apply_ops ops (apply_op op r)

  -- What is kept under the key, when an entry is put under another or under this one.
  pub put-Kept :
      (key k : Text) (most : ℕ) (before entry : ChannelEntry) (r : Registry)
      → IsOpenAt key before r
      → (bytes_eq key k ≡ true → (entry.opened ≡ true) × Raised most before entry)
      → Kept key most before (record_entry k entry r)
  unfolding record_entry
  put-Kept key k most before entry r (there, is_open) raises = elim (Bool-cases (bytes_eq key k)) [
    | inl same ↦
        let (still_open, more) = raises same in
        (entry, (lookup-put key k entry r.channels ∙ rw same refl, still_open), more)
    | inr other ↦ (
      before,
      (lookup-put key k entry r.channels ∙ rw other there, is_open),
      (refl, omega arith, omega arith),
    )
  ]

  pub unchanged-Kept :
      (key : Text) (most : ℕ) (before : ChannelEntry) (r : Registry)
      → IsOpenAt key before r
      → Kept key most before r
  unchanged-Kept key most before r h = (before, h, (refl, omega arith, omega arith))
