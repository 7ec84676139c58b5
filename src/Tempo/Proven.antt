-- ===== src/Tempo/Proven.antt =====
-- What a proof that the charge method takes has shown:
-- src/protocol/methods/tempo/method.rs.
use mpp_rs.Prelude.{
  ℕ, Text, Bool, true, not, Option, none, some, ◌==◌, ==_iff, ◌≡◌, ◌⊎◌, Bool-cases, inl, inr,
}
use mathlib.Core.Path.{subst}
use mpp_rs.Prelude.Results.{
  Result, err, ok, bind-ok, err_if-ok, ok_or-ok, ok-injective, map_err-ok, result_cases,
}
use mpp_rs.Error.{VerificationError, new}
use mpp_rs.Server.Types.{PaymentCredential, Receipt}
use mpp_rs.Store.Memory.{MemoryStore}
use mpp_rs.Tempo.Source.{ProofSource, parse_proof_source}
use mpp_rs.Tempo.Hash.{reserve, success}
use mpp_rs.Tempo.CallsPaid.{unflag, not-false}
use mpp_rs.Tempo.Proof.{recover_proof_signer, verify_proof, proof_fingerprint}
use mpp_rs.Tempo.Broadcast.{Node}
use mpp_rs.Tempo.Verify.{key_is_usable, check_signer, checked_proof, proof_key, settle_proof}
use mpp_rs.Tempo.Reserved.{Reserved, reserve-Reserved, behind-ok, refused}

module _ (n : Node) (credential : PaymentCredential) (chain_id : ℕ) (content : Text) where
  -- The signature is that of the source, or of an access key that the source's account has.
  abbrev pub IsSigned : ProofSource → Type 0
  IsSigned source =
      (verify_proof n.prover chain_id credential.challenge.id credential.challenge.realm content
          source.address
        ≡ true)
      ⊎ ((recovered : ℕ) × (recover_proof_signer n.prover chain_id credential.challenge.id
              credential.challenge.realm content
            ≡ ok recovered)
          × (key_is_usable n (n.get_key source.address recovered) ≡ true))

  -- A proof by the payer that the credential names, on this chain; with a store it is recorded.
  pub record IsProven (store : Option MemoryStore) (after : Option MemoryStore) : Type 0 where
    pub source_text : Text
    pub has_source : credential.source ≡ some source_text
    pub source : ProofSource
    pub is_source : parse_proof_source n.chain.log_parsers.parse_address source_text ≡ some source
    pub on_chain : source.chain_id ≡ chain_id
    pub signed : IsSigned source
    pub recorded :
        (before : MemoryStore)
        → store ≡ some before
        → (fingerprint : ℕ) × (proof_fingerprint n.prover credential.challenge.id source.address
              source.chain_id content
            ≡ ok fingerprint)
          × Reserved n.chain (proof_key n fingerprint) store after

  check_signer-IsSigned :
      (source : ProofSource) (u : Unit {0})
      → check_signer n credential source chain_id content ≡ ok u
      → IsSigned source
  unfolding check_signer
  check_signer-IsSigned source u e =
      let direct : Bool =
        verify_proof n.prover chain_id credential.challenge.id credential.challenge.realm content
          source.address in
      elim (Bool-cases direct) [
        | inl yes_direct ↦ inl yes_direct
        | inr keychain ↦
            let (recovered, found, e₁) = bind-ok _ _ u (rw (keychain, check_signer) at e) in
            inr (recovered, map_err-ok (λ _. new) _ recovered found, not-false _ (unflag _ e₁))
      ]

  -- What the checks of a proof have shown.
  abbrev IsChecked : ℕ → ProofSource → Type 0
  IsChecked amount source =
      (amount ≡ 0)
      × ((source_text : Text) × (credential.source ≡ some source_text)
          × (parse_proof_source n.chain.log_parsers.parse_address source_text ≡ some source)
          × (source.chain_id ≡ chain_id)
          × IsSigned source)

  checked_proof-IsChecked :
      (amount : ℕ) (source : ProofSource)
      → checked_proof n credential chain_id content amount ≡ ok source
      → IsChecked amount source
  unfolding checked_proof
  checked_proof-IsChecked amount source e =
      let (zero, e₁) = err_if-ok (not (amount == 0)) new _ source e in
      let (text, there, e₂) = ok_or-ok credential.source new _ source e₁ in
      let (parsed, is_parsed, e₃) =
        ok_or-ok (parse_proof_source n.chain.log_parsers.parse_address text) new _ source e₂ in
      let (same, e₄) = err_if-ok (not (parsed.chain_id == chain_id)) new _ source e₃ in
      let (u, signed, e₅) =
        bind-ok (check_signer n credential parsed chain_id content) _ source e₄ in
      subst (IsChecked amount) (ok-injective parsed source e₅) (
        (==_iff _ _).0 (not-false _ zero),
        (
          text,
          there,
          is_parsed,
          (==_iff _ _).0 (not-false _ same),
          check_signer-IsSigned parsed u signed,
        ),
      )

  pub settle_proof-IsProven :
      (amount : ℕ) (c : Result VerificationError ProofSource) (store : Option MemoryStore)
      (r : Receipt) (after : Option MemoryStore)
      → checked_proof n credential chain_id content amount ≡ c
      → settle_proof n credential content c store ≡ (ok r, after)
      → (amount ≡ 0) × IsProven store after
  unfolding settle_proof
  settle_proof-IsProven amount (err reason) store r after is_checked e = absurd (refused e)
  settle_proof-IsProven amount (ok source) none r after is_checked e =
      let (zero, (text, there, is_source, on_chain, signed)) =
        checked_proof-IsChecked amount source is_checked in
      (
        zero,
        record {
          source_text = text;
          has_source = there;
          source = source;
          is_source = is_source;
          on_chain = on_chain;
          signed = signed;
          recorded = λ before h. cc;
        },
      )
  settle_proof-IsProven amount (ok source) (some store) r after is_checked e =
      let (zero, (text, there, is_source, on_chain, signed)) =
        checked_proof-IsChecked amount source is_checked in
      let print =
        proof_fingerprint n.prover credential.challenge.id source.address source.chain_id content in
      elim (result_cases print) [
        | inl (reason, bad) ↦ absurd (refused (rw (bad, settle_proof) at e))
        | inr (fingerprint, good) ↦
            let p = reserve n.chain (proof_key n fingerprint) (some store) in
            let (taken, _, is_after) =
              behind-ok p (success n.chain credential.challenge.id) r after
                (rw (good, settle_proof) at e) in
            (
              zero,
              record {
                source_text = text;
                has_source = there;
                source = source;
                is_source = is_source;
                on_chain = on_chain;
                signed = signed;
                recorded = λ before h. (
                  fingerprint,
                  good,
                  subst (Reserved n.chain (proof_key n fingerprint) (some store)) is_after
                      (reserve-Reserved n.chain (proof_key n fingerprint) (some store) taken),
                );
              },
            )
      ]
