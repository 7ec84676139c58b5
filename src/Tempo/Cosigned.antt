-- ===== src/Tempo/Cosigned.antt =====
-- What a sponsor of fees has checked before it signs: `cosign_fee_payer_transaction` of
-- src/protocol/methods/tempo/method.rs.
use mpp_rs.Prelude.{
  ℕ, ◌+◌, ◌-◌, ◌*◌, ◌≤◌, ◌<◌, Bool, true, false, not, Option, none, some, List, ltb, leb, ◌==◌,
  if◌then◌else◌, ◌≡◌, sym, ap, ◌∙◌, arith, u128_mod, ==_iff,
}
use mpp_rs.Prelude.Results.{ok, bind-ok, err_if-ok, ok_or-ok, ok-injective}
use mpp_rs.Error.{new}
use mpp_rs.Tempo.CallsPaid.{not-false, unflag}
use mpp_rs.Tempo.Policy.{FeePayerPolicy, FeePayerPolicyOverride, resolve}
use mpp_rs.Tempo.Cosign.{
  FeePayerEnvelope78, TempoTransaction, Sponsor, non_zero, to_recoverable_signed, is_present,
  contains, saturating_mul, set_fee_payer, check_policy, decode_envelope, starts_with_type,
  allowed_tokens, cosigned, cosign_fee_payer_transaction,
}

-- The limits of a policy.
pub record IsWithin (policy : FeePayerPolicy) (tx : TempoTransaction) (valid_before now : ℕ)
    : Type 0 where
  pub gas_price : tx.max_fee_per_gas ≤ policy.max_fee_per_gas
  pub priority : tx.max_priority_fee_per_gas ≤ tx.max_fee_per_gas
  pub policy_priority : tx.max_priority_fee_per_gas ≤ policy.max_priority_fee_per_gas
  pub window : valid_before ≤ now + policy.max_validity_window_seconds
  pub total :
      policy.max_total_fee < u128_mod - 1 → tx.gas_limit * tx.max_fee_per_gas ≤ policy.max_total_fee

not_less : (a b : ℕ) → ltb a b ≡ false → b ≤ a
not_less a b h = ground arith

saturated : (limit a b : ℕ) → saturating_mul a b ≤ limit → limit < u128_mod - 1 → a * b ≤ limit
unfolding saturating_mul
saturated limit a b h small = go (a * b) h
  where
    go : (n : ℕ) → (if ltb n u128_mod then n else u128_mod - 1) ≤ limit → n ≤ limit
    go n bound = ground arith

check_policy-IsWithin :
    (policy : FeePayerPolicy) (tx : TempoTransaction) (valid_before now : ℕ)
    → check_policy policy tx valid_before now ≡ ok tt
    → IsWithin policy tx valid_before now
unfolding check_policy
check_policy-IsWithin policy tx valid_before now e =
    let (price, e₁) = err_if-ok (ltb policy.max_fee_per_gas tx.max_fee_per_gas) new _ tt e in
    let fee : ℕ = saturating_mul tx.gas_limit tx.max_fee_per_gas in
    let (total, e₂) = err_if-ok (ltb policy.max_total_fee fee) new _ tt e₁ in
    let (priority, e₃) =
      err_if-ok (ltb tx.max_fee_per_gas tx.max_priority_fee_per_gas) new _ tt e₂ in
    let (policy_priority, e₄) =
      err_if-ok (ltb policy.max_priority_fee_per_gas tx.max_priority_fee_per_gas) new _ tt e₃ in
    let window : (valid_before - now ≤ policy.max_validity_window_seconds) =
      not_less _ _ (unflag _ e₄) in
    record {
      gas_price = not_less _ _ price;
      priority = not_less _ _ priority;
      policy_priority = not_less _ _ policy_priority;
      window = omega (arith, window);
      total = saturated policy.max_total_fee tx.gas_limit tx.max_fee_per_gas (not_less _ _ total);
    }

-- A signature of the sponsor: on the transaction of an envelope that its sender has signed, within
-- the policy of the chain.
pub record IsSponsored (x : Sponsor) (overrides : Option FeePayerPolicyOverride)
    (tokens : Option (List ℕ)) (now : ℕ) (tx_bytes : List ℕ) (fee_token : ℕ) (signed_bytes : List ℕ)
    : Type 0 where
  pub env : FeePayerEnvelope78
  pub decoded : decode_envelope x tx_bytes ≡ some env
  pub from_sender : x.recover_signer (to_recoverable_signed env) env.signature ≡ some env.sender
  pub no_token : is_present env.fee_token ≡ false
  pub expiring : env.nonce_key ≡ x.expiring_nonce_key
  pub valid_before : ℕ
  pub is_valid_before : non_zero env.valid_before ≡ some valid_before
  pub in_time : now < valid_before
  pub token_allowed : contains (allowed_tokens tokens env.chain_id) fee_token ≡ true
  pub within :
      IsWithin (resolve env.chain_id overrides) (to_recoverable_signed env) valid_before now
  pub fp_sig : ℕ × ℕ × Bool
  pub signed :
      x.sign_hash_sync (
        x.fee_payer_signature_hash
          (set_fee_payer (to_recoverable_signed env) (some fee_token) none)
          env.sender)
      ≡ some fp_sig
  pub is_signed :
      signed_bytes
      ≡ x.encoded_2718
          (set_fee_payer (to_recoverable_signed env) (some fee_token) (some fp_sig))
          env.signature

not_later : (a b : ℕ) → leb a b ≡ false → b < a
not_later a b h = ground arith

-- When the sponsor of fees signs a transaction, it is the transaction of an envelope whose signature is
-- its sender's, has no token of its own and the expiring nonce key, ends after now and within the
-- policy's window, its token is allowed, and its gas price, priority fee and total fee are within the
-- policy; the total is the product without saturation whenever the policy's limit is below the
-- largest `u128`. The signature is on that transaction with the token set.
pub cosign_fee_payer_transaction-IsSponsored :
    (x : Sponsor) (overrides : Option FeePayerPolicyOverride) (tokens : Option (List ℕ)) (now : ℕ)
    (tx_bytes : List ℕ) (fee_token : ℕ) (signed_bytes : List ℕ)
    → cosign_fee_payer_transaction x overrides tokens now tx_bytes fee_token ≡ ok signed_bytes
    → IsSponsored x overrides tokens now tx_bytes fee_token signed_bytes
unfolding cosign_fee_payer_transaction cosigned to_recoverable_signed
cosign_fee_payer_transaction-IsSponsored x overrides tokens now tx_bytes fee_token out e =
    let (_, e₁) = err_if-ok (not (starts_with_type x tx_bytes)) new _ out e in
    let (env, decoded, e₂) = ok_or-ok (decode_envelope x tx_bytes) new _ out e₁ in
    let tx : TempoTransaction = to_recoverable_signed env in
    let (sender, recovered, e₃) = ok_or-ok (x.recover_signer tx env.signature) new _ out e₂ in
    let (same, e₄) = err_if-ok (not (sender == env.sender)) new _ out e₃ in
    let (_, e₅) = err_if-ok (not (is_present tx.fee_payer_signature)) new _ out e₄ in
    let (no_token, e₆) = err_if-ok (is_present tx.fee_token) new _ out e₅ in
    let (key, e₇) = err_if-ok (not (tx.nonce_key == x.expiring_nonce_key)) new _ out e₆ in
    let (valid_before, valid, e₈) = ok_or-ok tx.valid_before new _ out e₇ in
    let (in_time, e₉) = err_if-ok (leb valid_before now) new _ out e₈ in
    let (allowed, f₁) =
      err_if-ok (not (contains (allowed_tokens tokens tx.chain_id) fee_token)) new _ out e₉ in
    let (_, within, f₂) =
      bind-ok (check_policy (resolve tx.chain_id overrides) tx valid_before now) _ out f₁ in
    let (fp_sig, signed, f₃) =
      ok_or-ok
        (x.sign_hash_sync
          (x.fee_payer_signature_hash (set_fee_payer tx (some fee_token) none) sender))
        new _ out f₂ in
    let is_sender : sender ≡ env.sender = (==_iff _ _).0 (not-false _ same) in
    record {
      env = env;
      decoded = decoded;
      from_sender = recovered ∙ ap some is_sender;
      no_token = no_token;
      expiring = (==_iff _ _).0 (not-false _ key);
      valid_before = valid_before;
      is_valid_before = valid;
      in_time = not_later _ _ in_time;
      token_allowed = not-false _ allowed;
      within = check_policy-IsWithin (resolve tx.chain_id overrides) tx valid_before now within;
      fp_sig = fp_sig;
      signed =
          ap
            (λ s.
              x.sign_hash_sync
                (x.fee_payer_signature_hash (set_fee_payer tx (some fee_token) none) s))
            (sym is_sender)
          ∙ signed;
      is_signed = sym (ok-injective _ _ f₃);
    }
