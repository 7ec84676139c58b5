-- ===== src/Tempo/Cosign.antt =====
-- `cosign_fee_payer_transaction` of src/protocol/methods/tempo/method.rs, with the envelope of
-- src/protocol/methods/tempo/fee_payer_envelope.rs. The RLP decoder of its fields, the recovery of a
-- signer, the signature and the encoder of a transaction are parameters; a field that is only passed
-- on is the list of its bytes.
use mpp_rs.Prelude.{
  ℕ, ◌-◌, ◌*◌, Bool, true, false, not, Option, none, some, List, [], ◌∷◌, ltb, leb, ◌==◌,
  if◌then◌else◌, u128_mod,
}
use mpp_rs.Prelude.Results.{Result, ok, ◌>>=◌, ◌>>◌, ok_or, err_if}
use mpp_rs.Error.{VerificationError, new}
use mpp_rs.Tempo.Calls.{Call}
use mpp_rs.Tempo.Policy.{
  TempoNetwork, mainnet, moderato, from_chain_id, FeePayerPolicy, FeePayerPolicyOverride, resolve,
}

pub record FeePayerEnvelope78 : Type 0 where
  pub chain_id : ℕ
  pub max_priority_fee_per_gas : ℕ
  pub max_fee_per_gas : ℕ
  pub gas_limit : ℕ
  pub calls : List Call
  pub access_list : List ℕ
  pub nonce_key : ℕ
  pub nonce : ℕ
  pub valid_before : Option ℕ
  pub valid_after : Option ℕ
  pub fee_token : Option ℕ
  pub sender : ℕ
  pub tempo_authorization_list : List ℕ
  pub key_authorization : Option (List ℕ)
  pub signature : List ℕ

pub record TempoTransaction : Type 0 where
  pub chain_id : ℕ
  pub nonce : ℕ
  pub nonce_key : ℕ
  pub gas_limit : ℕ
  pub max_fee_per_gas : ℕ
  pub max_priority_fee_per_gas : ℕ
  pub fee_token : Option ℕ
  pub calls : List Call
  pub access_list : List ℕ
  pub fee_payer_signature : Option (ℕ × ℕ × Bool)
  pub valid_before : Option ℕ
  pub valid_after : Option ℕ
  pub key_authorization : Option (List ℕ)
  pub tempo_authorization_list : List ℕ

-- The other libraries: the decoder gives the bytes that it leaves, `encoded_2718` takes the
-- transaction and the client's signature.
pub record Sponsor : Type 0 where
  pub decode : List ℕ → Option (FeePayerEnvelope78 × List ℕ)
  pub recover_signer : TempoTransaction → List ℕ → Option ℕ
  pub fee_payer_signature_hash : TempoTransaction → ℕ → ℕ
  pub sign_hash_sync : ℕ → Option (ℕ × ℕ × Bool)
  pub encoded_2718 : TempoTransaction → List ℕ → List ℕ
  pub type_id : ℕ
  pub expiring_nonce_key : ℕ

-- `NonZeroU64::new`.
abbrev pub non_zero : Option ℕ → Option ℕ
non_zero none = none
non_zero (some n) = if n == 0 then none else some n

unfoldable pub to_recoverable_signed : FeePayerEnvelope78 → TempoTransaction
to_recoverable_signed env = record {
  chain_id = env.chain_id;
  nonce = env.nonce;
  nonce_key = env.nonce_key;
  gas_limit = env.gas_limit;
  max_fee_per_gas = env.max_fee_per_gas;
  max_priority_fee_per_gas = env.max_priority_fee_per_gas;
  fee_token = env.fee_token;
  calls = env.calls;
  access_list = [];
  fee_payer_signature = some (0, 0, false);
  valid_before = non_zero env.valid_before;
  valid_after = non_zero env.valid_after;
  key_authorization = env.key_authorization;
  tempo_authorization_list = env.tempo_authorization_list;
}

abbrev pub is_present {ℓ} : {A : Type ℓ} → Option A → Bool
is_present none = false
is_present (some a) = true

unfoldable pub contains : List ℕ → ℕ → Bool
contains [] token = false
contains (a ∷ tokens) token = if a == token then true else contains tokens token

unfoldable pub saturating_mul : ℕ → ℕ → ℕ
saturating_mul a b = if ltb (a * b) u128_mod then a * b else u128_mod - 1

unfoldable pub set_fee_payer :
    TempoTransaction → Option ℕ → Option (ℕ × ℕ × Bool) → TempoTransaction
set_fee_payer tx token signature = record {
  chain_id = tx.chain_id;
  nonce = tx.nonce;
  nonce_key = tx.nonce_key;
  gas_limit = tx.gas_limit;
  max_fee_per_gas = tx.max_fee_per_gas;
  max_priority_fee_per_gas = tx.max_priority_fee_per_gas;
  fee_token = token;
  calls = tx.calls;
  access_list = tx.access_list;
  fee_payer_signature = signature;
  valid_before = tx.valid_before;
  valid_after = tx.valid_after;
  key_authorization = tx.key_authorization;
  tempo_authorization_list = tx.tempo_authorization_list;
}

-- The limits of the policy on fees and on the time that the transaction stays valid.
unfoldable pub check_policy :
    FeePayerPolicy → TempoTransaction → ℕ → ℕ → Result VerificationError (Unit {0})
unfolding saturating_mul
check_policy policy tx valid_before now = do
  err_if (ltb policy.max_fee_per_gas tx.max_fee_per_gas) new
  err_if (ltb policy.max_total_fee (saturating_mul tx.gas_limit tx.max_fee_per_gas)) new
  err_if (ltb tx.max_fee_per_gas tx.max_priority_fee_per_gas) new
  err_if (ltb policy.max_priority_fee_per_gas tx.max_priority_fee_per_gas) new
  err_if (ltb policy.max_validity_window_seconds (valid_before - now)) new

-- The addresses of the two default currencies.
abbrev pub default_currency_mainnet : ℕ
default_currency_mainnet = 0x20c000000000000000000000b9537d11c60e8b50

abbrev pub default_currency_testnet : ℕ
default_currency_testnet = 0x20c0000000000000000000000000000000000000

abbrev pub network_token : Option TempoNetwork → ℕ
network_token (some mainnet) = default_currency_mainnet
network_token (some moderato) = default_currency_testnet
network_token none = default_currency_testnet

unfoldable pub allowed_tokens : Option (List ℕ) → ℕ → List ℕ
unfolding from_chain_id
allowed_tokens (some tokens) chain_id = tokens
allowed_tokens none chain_id = network_token (from_chain_id chain_id) ∷ []

module _ (x : Sponsor) where
  unfoldable pub decode_envelope : List ℕ → Option FeePayerEnvelope78
  decode_envelope [] = none
  decode_envelope (magic ∷ bytes) =
      if magic == x.type_id
      then elim (x.decode bytes) [
        | none ↦ none
        | some (env, []) ↦ some env
        | some (env, b ∷ rest) ↦ none
      ]
      else none

  abbrev pub starts_with_type : List ℕ → Bool
  starts_with_type [] = false
  starts_with_type (b ∷ bytes) = b == x.type_id

  -- The signature of the sponsor on the transaction, with the token that pays the fees.
  unfoldable pub cosigned : TempoTransaction → List ℕ → ℕ → ℕ → Result VerificationError (List ℕ)
  unfolding set_fee_payer
  cosigned tx signature sender fee_token = do
    fp_sig ←
        ok_or
          (x.sign_hash_sync
            (x.fee_payer_signature_hash (set_fee_payer tx (some fee_token) none) sender))
          new
    ok (x.encoded_2718 (set_fee_payer tx (some fee_token) (some fp_sig)) signature)

  unfoldable pub cosign_fee_payer_transaction :
      Option FeePayerPolicyOverride
      → Option (List ℕ)
      → ℕ
      → List ℕ
      → ℕ
      → Result VerificationError (List ℕ)
  unfolding decode_envelope to_recoverable_signed allowed_tokens contains check_policy cosigned
      resolve
  cosign_fee_payer_transaction overrides tokens now tx_bytes fee_token = do
    err_if (not (starts_with_type tx_bytes)) new
    env ← ok_or (decode_envelope tx_bytes) new
    let tx = to_recoverable_signed env
    sender ← ok_or (x.recover_signer tx env.signature) new
    err_if (not (sender == env.sender)) new
    err_if (not (is_present tx.fee_payer_signature)) new
    err_if (is_present tx.fee_token) new
    err_if (not (tx.nonce_key == x.expiring_nonce_key)) new
    valid_before ← ok_or tx.valid_before new
    err_if (leb valid_before now) new
    err_if (not (contains (allowed_tokens tokens tx.chain_id) fee_token)) new
    check_policy (resolve tx.chain_id overrides) tx valid_before now
    cosigned tx env.signature sender fee_token
