-- ===== src/Tempo/Policy.antt =====
-- `FeePayerPolicy` of src/protocol/methods/tempo/method.rs: what a sponsor of fees allows on a chain.
use mpp_rs.Prelude.{ℕ, Option, none, some, ◌==◌, if◌then◌else◌}

pub record FeePayerPolicy : Type 0 where
  pub max_gas : ℕ
  pub max_fee_per_gas : ℕ
  pub max_priority_fee_per_gas : ℕ
  pub max_total_fee : ℕ
  pub max_validity_window_seconds : ℕ

pub record FeePayerPolicyOverride : Type 0 where
  pub max_gas : Option ℕ
  pub max_fee_per_gas : Option ℕ
  pub max_priority_fee_per_gas : Option ℕ
  pub max_total_fee : Option ℕ
  pub max_validity_window_seconds : Option ℕ

pub data TempoNetwork : Type 0 where
  mainnet : TempoNetwork
  moderato : TempoNetwork

unfoldable pub from_chain_id : ℕ → Option TempoNetwork
from_chain_id chain_id =
    if chain_id == 4217 then some mainnet else if chain_id == 42431 then some moderato else none

abbrev pub max_priority_fee : Option TempoNetwork → ℕ
max_priority_fee (some moderato) = 50000000000
max_priority_fee (some mainnet) = 10000000000
max_priority_fee none = 10000000000

unfoldable pub get_by_chain_id : ℕ → FeePayerPolicy
unfolding from_chain_id
get_by_chain_id chain_id = record {
  max_gas = 2000000;
  max_fee_per_gas = 100000000000;
  max_priority_fee_per_gas = max_priority_fee (from_chain_id chain_id);
  max_total_fee = 50000000000000000;
  max_validity_window_seconds = 900;
}

abbrev pub unwrap_or : Option ℕ → ℕ → ℕ
unwrap_or none default = default
unwrap_or (some n) default = n

unfoldable pub resolve : ℕ → Option FeePayerPolicyOverride → FeePayerPolicy
unfolding get_by_chain_id
resolve chain_id none = get_by_chain_id chain_id
resolve chain_id (some o) =
    let policy = get_by_chain_id chain_id in
    record {
      max_gas = unwrap_or o.max_gas policy.max_gas;
      max_fee_per_gas = unwrap_or o.max_fee_per_gas policy.max_fee_per_gas;
      max_priority_fee_per_gas =
          unwrap_or o.max_priority_fee_per_gas policy.max_priority_fee_per_gas;
      max_total_fee = unwrap_or o.max_total_fee policy.max_total_fee;
      max_validity_window_seconds =
          unwrap_or o.max_validity_window_seconds policy.max_validity_window_seconds;
    }
