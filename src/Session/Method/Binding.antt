-- ===== src/Session/Method/Binding.antt =====
-- `verify_open_channel_id_binding`: the channel that an open transaction creates is the one that the
-- credential names.
use mpp_rs.Prelude.{
  ℕ, Bool, false, Option, none, some, not, ◌&&◌, List, [], ◌∷◌, length, take, leb, ◌==◌,
  if◌then◌else◌,
}
use mpp_rs.Error.{Result, ok, err, new, invalid_payload, credential_mismatch, ok_or, ◌>>=◌}
use mpp_rs.Voucher.{Address, B256, Bytes, bytes_eq}
use mpp_rs.Session.Externs.{Externs, TxCall}

-- The type byte, where it is present.
abbrev pub strip_type_byte : ℕ → Bytes → Bytes
strip_type_byte id [] = []
strip_type_byte id (b ∷ bs) = if b == id then bs else b ∷ bs

abbrev pub targets : Address → Option Address → Bool
targets escrow none = false
targets escrow (some a) = a == escrow

-- The first call of `escrow.open`.
unfoldable pub find_open_call : Address → Bytes → List TxCall → Option TxCall
unfolding bytes_eq
find_open_call escrow selector [] = none
find_open_call escrow selector (c ∷ cs) =
    if targets escrow c.to && (leb 4 (length c.input) && bytes_eq (take 4 c.input) selector)
    then some c
    else find_open_call escrow selector cs

abbrev err_if : Bool → Result (Unit {0}) → Result (Unit {0}) → Result (Unit {0})
err_if b e k = if b then e else k

module _ (x : Externs) where
  unfoldable pub verify_open_channel_id_binding :
      Bytes → B256 → Address → ℕ → Address → Address → Result (Unit {0})
  unfolding find_open_call
  verify_open_channel_id_binding tx_bytes claimed escrow chain_id expected_payee expected_token = do
    signed ← ok_or (x.rlp_decode (strip_type_byte x.tempo_tx_type_id tx_bytes)) invalid_payload
    sender ← ok_or (x.recover_signer signed) new
    open_call ← ok_or (find_open_call escrow x.open_selector signed.calls) invalid_payload
    decoded ← ok_or (x.decode_open open_call.input) invalid_payload
    let derived = x.keccak_of_params (record {
      payer = sender;
      payee = decoded.payee;
      token = decoded.token;
      salt = decoded.salt;
      authorized_signer = decoded.authorized_signer;
      escrow_contract = escrow;
      chain_id = chain_id;
    })
    if not (decoded.payee == expected_payee)
        then err credential_mismatch
        else if not (decoded.token == expected_token)
        then err credential_mismatch
        else if not (derived == claimed)
        then err new
        else ok tt
