-- ===== src/Tempo/CosignTests.antt =====
-- A sponsor that signs a transaction on mainnet, and the theorem on it.
use mpp_rs.Prelude.{◌≡◌, refl, true, none, some, [], ◌∷◌}
use mpp_rs.Prelude.Results.{ok, err}
use mpp_rs.Error.{new}
use mpp_rs.Tempo.Policy.{resolve, get_by_chain_id, from_chain_id}
use mpp_rs.Tempo.Cosign.{
  FeePayerEnvelope78, Sponsor, to_recoverable_signed, contains, saturating_mul, set_fee_payer,
  check_policy, default_currency_mainnet, decode_envelope, allowed_tokens, cosigned,
  cosign_fee_payer_transaction,
}
use mpp_rs.Tempo.Cosigned.{IsSponsored, cosign_fee_payer_transaction-IsSponsored}

abbrev envelope : FeePayerEnvelope78
envelope = record {
  chain_id = 4217;
  max_priority_fee_per_gas = 1000;
  max_fee_per_gas = 2000;
  gas_limit = 100000;
  calls = [];
  access_list = [];
  nonce_key = 99;
  nonce = 0;
  valid_before = some 600;
  valid_after = none;
  fee_token = none;
  sender = 5;
  tempo_authorization_list = [];
  key_authorization = none;
  signature = 1 ∷ [];
}

-- The encoding shows the gas limit.
abbrev sponsor : Sponsor
sponsor = record {
  decode = λ bytes. some (envelope, []);
  recover_signer = λ tx signature. some 5;
  fee_payer_signature_hash = λ tx sender. 42;
  sign_hash_sync = λ hash. some (hash, hash, true);
  encoded_2718 = λ tx signature. 0x76 ∷ tx.gas_limit ∷ signature;
  type_id = 0x78;
  expiring_nonce_key = 99;
}

sponsor-run :
    cosign_fee_payer_transaction sponsor none none 100 (0x78 ∷ []) default_currency_mainnet
    ≡ ok (0x76 ∷ 100000 ∷ 1 ∷ [])
unfolding cosign_fee_payer_transaction decode_envelope to_recoverable_signed allowed_tokens contains
    check_policy cosigned resolve get_by_chain_id from_chain_id saturating_mul set_fee_payer
sponsor-run = refl

-- At the second of its end the envelope has expired.
expired_envelope :
    cosign_fee_payer_transaction sponsor none none 600 (0x78 ∷ []) default_currency_mainnet
    ≡ err new
unfolding cosign_fee_payer_transaction decode_envelope to_recoverable_signed allowed_tokens contains
    check_policy cosigned resolve get_by_chain_id from_chain_id saturating_mul set_fee_payer
expired_envelope = refl

cosign_fee_payer_transaction-IsSponsored_example :
    IsSponsored sponsor none none 100 (0x78 ∷ []) default_currency_mainnet (0x76 ∷ 100000 ∷ 1 ∷ [])
cosign_fee_payer_transaction-IsSponsored_example =
    cosign_fee_payer_transaction-IsSponsored sponsor none none 100 (0x78 ∷ [])
      default_currency_mainnet (0x76 ∷ 100000 ∷ 1 ∷ []) sponsor-run
