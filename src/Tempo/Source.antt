-- ===== src/Tempo/Source.antt =====
-- `parse_proof_source` of src/protocol/methods/tempo/proof.rs: the identifier of a payer.
use mpp_rs.Prelude.{
  ℕ, Text, codes, Bool, false, not, ◌&&◌, Option, none, some, [], ◌∷◌, ltb, ◌==◌, if◌then◌else◌,
  byte_len, strip_prefix, split_once, parse_codes, u64_mod, all_chars,
}
use mpp_rs.Charge.Json.{Value, boolean, number}
use mpp_rs.Tempo.Logs.{and_then}

pub record ProofSource : Type 0 where
  pub address : ℕ
  pub chain_id : ℕ

abbrev pub parse_u64 : Text → Option ℕ
parse_u64 s = and_then (parse_codes s) λ n. if ltb n u64_mod then some n else none

-- `Value::as_u64`, and `as_bool` with `unwrap_or(false)`.
abbrev pub as_u64 : Value → Option ℕ
as_u64 (number digits) = parse_u64 digits
as_u64 _ = none

abbrev pub is_true : Option Value → Bool
is_true (some (boolean b)) = b
is_true _ = false

abbrev pub starts_with_zero : Text → Bool
starts_with_zero [] = false
starts_with_zero (c ∷ cs) = c == b'0'

abbrev pub none_if {ℓ} : {A : Type ℓ} → Bool → Option A → Option A
none_if b o = if b then none else o

-- `none` where the code has an error.
unfoldable pub parse_proof_source : (Text → Option ℕ) → Text → Option ProofSource
unfolding strip_prefix split_once parse_codes all_chars
parse_proof_source parse_address source =
    and_then (strip_prefix (codes "did:pkh:eip155:") source) λ rest.
      and_then (split_once b':' rest) λ parts.
        none_if (ltb 1 (byte_len parts.0) && starts_with_zero parts.0) (
          and_then (parse_u64 parts.0) λ chain_id.
            none_if (not (all_chars (λ c. not (c == b':')) parts.1)) (
              and_then (parse_address parts.1)
                λ address. some (record { address = address; chain_id = chain_id })))
