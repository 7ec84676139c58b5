-- ===== src/Tempo/Proof.antt =====
-- The proof credentials of src/protocol/methods/tempo/proof.rs: a signature over the challenge's id and
-- realm that shows who the payer is. The parsers, the typed-data hash and the recovery of a signer are
-- parameters; a signature is the list of its bytes, and `lower_hex` is the format `{:x}`.
use mpp_rs.Prelude.{
  ℕ, ◌/◌, ◌%◌, ◌^◌, Text, Bool, false, Option, List, [], ◌∷◌, ◌++◌, as_bytes, ◌==◌,
}
use mpp_rs.Prelude.Results.{Result, err, ok, ◌>>=◌, ok_or}

pub record Prover : Type 0 where
  pub parse_bytes : Text → Option (List ℕ)
  pub signature_of : List ℕ → Option (List ℕ)
  pub normalized_s : List ℕ → List ℕ
  pub recover : List ℕ → ℕ → Option ℕ
  pub signing_hash : ℕ → Text → Text → ℕ
  pub address_bytes : ℕ → List ℕ
  pub keccak256 : List ℕ → ℕ
  pub lower_hex : ℕ → Text

-- `to_be_bytes` of a `u64`.
abbrev pub be_bytes : ℕ → List ℕ
be_bytes n =
    (n / 2 ^ 56 % 256)
    ∷ (n / 2 ^ 48 % 256)
    ∷ (n / 2 ^ 40 % 256)
    ∷ (n / 2 ^ 32 % 256)
    ∷ (n / 2 ^ 24 % 256)
    ∷ (n / 2 ^ 16 % 256)
    ∷ (n / 2 ^ 8 % 256)
    ∷ (n % 256)
    ∷ []

module _ (x : Prover) where
  abbrev pub read_signature : Text → Result (Unit {0}) (List ℕ)
  read_signature signature_hex = do
    signature_bytes ← ok_or (x.parse_bytes signature_hex) tt
    ok_or (x.signature_of signature_bytes) tt

  unfoldable pub recover_proof_signer : ℕ → Text → Text → Text → Result (Unit {0}) ℕ
  recover_proof_signer chain_id challenge_id realm signature_hex =
      read_signature signature_hex >>= λ signature.
      ok_or (x.recover signature (x.signing_hash chain_id challenge_id realm)) tt

  unfoldable pub verify_proof : ℕ → Text → Text → Text → ℕ → Bool
  unfolding recover_proof_signer
  verify_proof chain_id challenge_id realm signature_hex expected_signer =
      elim (recover_proof_signer chain_id challenge_id realm signature_hex) [
        | ok recovered ↦ recovered == expected_signer
        | err _ ↦ false
      ]

  unfoldable pub proof_fingerprint : Text → ℕ → ℕ → Text → Result (Unit {0}) ℕ
  unfolding as_bytes
  proof_fingerprint challenge_id source_address chain_id signature_hex =
      read_signature signature_hex >>= λ signature. ok (
        x.keccak256 (
          as_bytes challenge_id
          ++ (0xff ∷ x.address_bytes source_address)
          ++ be_bytes chain_id
          ++ x.normalized_s signature))
