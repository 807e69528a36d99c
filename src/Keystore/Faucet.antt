-- ===== src/Keystore/Faucet.antt =====
-- `FaucetState::accept_and_debit` of agent_keystore.rs.
pub mod Gate
use d_hsm.Prelude.{ℕ, List, Bool, true, false, Option, none, some, ltb, if◌then◌else◌, replicate}
use d_hsm.Prelude.Bytes.{bytes_eq, bytes_lt}
use d_hsm.U256.{from_u64, checked_add, checked_mul_u64}
use d_hsm.Keystore.Types.{FaucetState}

pub data FaucetCapError : Type 0 where
  per_dispense_amount gas_limit_cap gas_fee_rate worst_case_overflow : FaucetCapError
  cumulative_budget lifetime_breaker : FaucetCapError

pub data FaucetResult {ℓ} (A : Type ℓ) : Type ℓ where
  accepted : A → FaucetResult A
  rejected : FaucetCapError → FaucetResult A

infixl 5 ◌>>=◌ ◌>>◌
abbrev pub ◌>>=◌ {ℓ κ} :
    {A : Type ℓ} {B : Type κ} → FaucetResult A → (A → FaucetResult B) → FaucetResult B
accepted a >>= f = f a
rejected e >>= f = rejected e

abbrev pub ◌>>◌ {ℓ} : {B : Type ℓ} → FaucetResult (Unit {0}) → FaucetResult B → FaucetResult B
m >> k = m >>= λ _. k

-- `if test { return Err(e) }`.
abbrev pub refuse_if : Bool → FaucetCapError → FaucetResult (Unit {0})
refuse_if true e = rejected e
refuse_if false e = accepted tt

abbrev pub ok_or {ℓ} : {A : Type ℓ} → Option A → FaucetCapError → FaucetResult A
ok_or none e = rejected e
ok_or (some a) e = accepted a

-- The breaker trips only where one is configured.
abbrev pub breaker_trips : Option (List ℕ) → List ℕ → Bool
breaker_trips none lifetime = false
breaker_trips (some breaker) lifetime = bytes_lt breaker lifetime

unfoldable pub accept_and_debit : FaucetState → List ℕ → ℕ → List ℕ → FaucetResult FaucetState
unfolding bytes_eq bytes_lt from_u64 checked_add checked_mul_u64
accept_and_debit f amount gas_limit gas_price = do
  refuse_if (bytes_eq f.cumulative_signing_budget (replicate 32 0)) cumulative_budget
  refuse_if (bytes_lt f.per_dispense_max_amount amount) per_dispense_amount
  refuse_if (ltb f.max_gas_limit gas_limit) gas_limit_cap
  refuse_if (bytes_lt (from_u64 f.max_effective_gas_fee_rate) gas_price) gas_fee_rate
  gas_cost ← ok_or (checked_mul_u64 gas_price gas_limit) worst_case_overflow
  worst_case ← ok_or (checked_add amount gas_cost) worst_case_overflow
  new_cumulative ← ok_or (checked_add f.cumulative_native_spend worst_case) worst_case_overflow
  refuse_if (bytes_lt f.cumulative_signing_budget new_cumulative) cumulative_budget
  new_lifetime ← ok_or (checked_add f.lifetime_spend worst_case) worst_case_overflow
  refuse_if (breaker_trips f.circuit_breaker_threshold new_lifetime) lifetime_breaker
  accepted (record f { cumulative_native_spend = new_cumulative; lifetime_spend = new_lifetime })
