-- ===== src/Voucher.antt =====
-- src/protocol/methods/tempo/voucher.rs: the server's check of a voucher's signature. Recovering the
-- signer of the EIP-712 hash (`Recover`) is a parameter: it is code of the `alloy` library.
use mpp_rs.Prelude.{
  ℕ, zero, suc, ◌+◌, ◌-◌, ◌*◌, Bool, true, false, not, ◌&&◌, ◌||◌, Option, none, some, List, [],
  ◌∷◌, length, take, drop, ltb, ◌==◌, if◌then◌else◌,
}
unfoldable pub use mpp_rs.Prelude.{bytes_eq}

abbrev pub Address : Type 0
Address = ℕ

abbrev pub B256 : Type 0
B256 = ℕ

abbrev pub Bytes : Type 0
Bytes = List ℕ

abbrev pub keychain_type_prefix : ℕ
keychain_type_prefix = 0x03

abbrev repeat_byte : ℕ → ℕ → Bytes
repeat_byte zero b = []
repeat_byte (suc n) b = b ∷ repeat_byte n b

abbrev pub magic_bytes : Bytes
magic_bytes = repeat_byte 32 0x77

unfoldable pub strip_magic_trailer : Bytes → Bytes
unfolding bytes_eq
strip_magic_trailer sig =
    if ltb 32 (length sig) && bytes_eq (drop (length sig - 32) sig) magic_bytes
    then take (length sig - 32) sig
    else sig

-- An address is the number that its bytes spell, the first byte on top.
unfoldable pub be_number : ℕ → Bytes → ℕ
be_number acc [] = acc
be_number acc (b ∷ bs) = be_number (acc * 256 + b) bs

unfoldable pub parse_keychain_user_address : Bytes → Option Address
unfolding be_number
parse_keychain_user_address [] = none
parse_keychain_user_address (b ∷ bs) =
    if ltb (length (b ∷ bs)) 21 || not (b == keychain_type_prefix)
    then none
    else some (be_number 0 (take 20 bs))

-- `Signature::try_from` and `recover_address_from_prehash` on the hash of the voucher in its domain:
-- escrow contract, chain, channel, cumulative amount, signature.
abbrev pub Recover : Type 0
Recover = Address → ℕ → B256 → ℕ → Bytes → Option Address

unfoldable pub is_some : {A : Type 0} → Option A → Bool
is_some none = false
is_some (some _) = true

module _ (recover : Recover) where
  unfoldable pub verify_voucher_ecdsa : Address → ℕ → B256 → ℕ → Bytes → Address → Bool
  verify_voucher_ecdsa escrow chain_id channel_id cumulative_amount sig expected_signer =
      elim (recover escrow chain_id channel_id cumulative_amount sig) [
        | some recovered ↦ recovered == expected_signer
        | none ↦ false
      ]

  unfoldable pub verify_voucher : Address → ℕ → B256 → ℕ → Bytes → Address → Bool
  unfolding strip_magic_trailer parse_keychain_user_address is_some verify_voucher_ecdsa
  verify_voucher escrow chain_id channel_id cumulative_amount signature_bytes expected_signer =
      let sig = strip_magic_trailer signature_bytes in
      if not (length sig == 65) && is_some (parse_keychain_user_address sig)
      then false
      else verify_voucher_ecdsa escrow chain_id channel_id cumulative_amount sig expected_signer
