-- ===== src/Keystore/Faucet/Gate.antt =====
-- `accept_and_debit` of agent_keystore.rs on numbers.
use d_hsm.Prelude.{
  ℕ, ◌+◌, ◌*◌, ◌≤◌, ◌≡◌, refl, subst, List, Bool, true, false, Option, none, some, arith, le_of_ltb,
  replicate,
}
use d_hsm.Prelude.Bytes.{IsU64, be_value, bytes_eq}
use d_hsm.U256.{from_u64, checked_add, checked_mul_u64}
use d_hsm.U256.Exact.{
  IsWord, from_u64-IsWord, from_u64-value, checked_add-some, checked_mul-some, le_of_bytes_lt,
}
use d_hsm.Keystore.Types.{FaucetState}
use d_hsm.Keystore.Faucet.{
  FaucetResult, FaucetCapError, accepted, rejected, ◌>>=◌, refuse_if, ok_or, breaker_trips,
  accept_and_debit,
}

pub record IsFaucet (f : FaucetState) : Type 0 where
  pub per_dispense : IsWord f.per_dispense_max_amount
  pub rate : IsU64 f.max_effective_gas_fee_rate
  pub cumulative : IsWord f.cumulative_native_spend
  pub lifetime : IsWord f.lifetime_spend
  pub budget : IsWord f.cumulative_signing_budget
  pub breaker : (b : List ℕ) → f.circuit_breaker_threshold ≡ some b → IsWord b

-- The worst-case native cost.
abbrev pub worst_case : List ℕ → ℕ → List ℕ → ℕ
worst_case amount gas_limit gas_price = be_value amount + be_value gas_price * gas_limit

abbrev pub WithinBreaker : Option (List ℕ) → ℕ → Type 0
WithinBreaker none lifetime = Unit
WithinBreaker (some breaker) lifetime = lifetime ≤ be_value breaker

bind_inv {ℓ κ} :
    {A : Type ℓ} {B : Type κ} (m : FaucetResult A) (f : A → FaucetResult B) {b : B}
    → (m >>= f) ≡ accepted b
    → (a : A) × (m ≡ accepted a) × (f a ≡ accepted b)
bind_inv (accepted a) f h = (a, refl, h)
bind_inv (rejected e) f h = cc

accepted_inv {ℓ} : {A : Type ℓ} {a b : A} → accepted a ≡ accepted b → a ≡ b
accepted_inv h = cc

refuse_inv : (b : Bool) (e : FaucetCapError) {u : Unit {0}} → refuse_if b e ≡ accepted u → b ≡ false
refuse_inv true e h = cc
refuse_inv false e h = refl

ok_or_inv {ℓ} :
    {A : Type ℓ} (o : Option A) (e : FaucetCapError) {a : A} → ok_or o e ≡ accepted a → o ≡ some a
ok_or_inv none e h = cc
ok_or_inv (some a) e h = cc

within_breaker :
    (t : Option (List ℕ)) (lifetime : List ℕ)
    → ((b : List ℕ) → t ≡ some b → IsWord b)
    → IsWord lifetime
    → breaker_trips t lifetime ≡ false
    → WithinBreaker t (be_value lifetime)
within_breaker none lifetime hb hl h = tt
within_breaker (some b) lifetime hb hl h = le_of_bytes_lt b lifetime (hb b refl) hl h

-- What an accepted dispense has checked, and what it has written.
pub record Debited (f f' : FaucetState) (amount : List ℕ) (gas_limit : ℕ) (gas_price : List ℕ)
    : Type 0 where
  pub configured : bytes_eq f.cumulative_signing_budget (replicate 32 0) ≡ false
  pub amount_capped : be_value amount ≤ be_value f.per_dispense_max_amount
  pub gas_capped : gas_limit ≤ f.max_gas_limit
  pub rate_capped : be_value gas_price ≤ f.max_effective_gas_fee_rate
  pub cumulative_eq :
      be_value f'.cumulative_native_spend
      ≡ be_value f.cumulative_native_spend + worst_case amount gas_limit gas_price
  pub lifetime_eq :
      be_value f'.lifetime_spend ≡ be_value f.lifetime_spend + worst_case amount gas_limit gas_price
  pub in_budget : be_value f'.cumulative_native_spend ≤ be_value f.cumulative_signing_budget
  pub in_breaker : WithinBreaker f.circuit_breaker_threshold (be_value f'.lifetime_spend)
  pub rest_same : f' ≡ record f {
    cumulative_native_spend = f'.cumulative_native_spend;
    lifetime_spend = f'.lifetime_spend;
  }
  pub still_words : IsWord f'.cumulative_native_spend × IsWord f'.lifetime_spend

-- For a state, an amount and a price of 32-byte words, an accepted dispense met every cap, both
-- spend counters grew by the worst-case cost, in ℕ, and stayed within the budget and the breaker,
-- and nothing else changed.
pub accept_and_debit_sound :
    (f : FaucetState) (amount : List ℕ) (gas_limit : ℕ) (gas_price : List ℕ) (f' : FaucetState)
    → IsFaucet f
    → IsWord amount
    → IsWord gas_price
    → accept_and_debit f amount gas_limit gas_price ≡ accepted f'
    → Debited f f' amount gas_limit gas_price
unfolding accept_and_debit
accept_and_debit_sound f amount gas_limit gas_price f' hf ha hp h =
    let (u0, set, h0) = bind_inv _ _ h in
    let (u1, amount_ok, h1) = bind_inv _ _ h0 in
    let (u2, gas_ok, h2) = bind_inv _ _ h1 in
    let (u3, rate_ok, h3) = bind_inv _ _ h2 in
    let (cost, mul, h4) = bind_inv (ok_or (checked_mul_u64 gas_price gas_limit) _) _ h3 in
    let (worst, add, h5) = bind_inv (ok_or (checked_add amount cost) _) _ h4 in
    let (cum, add_cum, h6) =
      bind_inv (ok_or (checked_add f.cumulative_native_spend worst) _) _ h5 in
    let (u7, budget_ok, h7) = bind_inv _ _ h6 in
    let (life, add_life, h8) = bind_inv (ok_or (checked_add f.lifetime_spend worst) _) _ h7 in
    let (u9, breaker_ok, h9) = bind_inv _ _ h8 in
    let (cost_word, cost_eq) = checked_mul-some gas_price gas_limit hp (ok_or_inv _ _ mul) in
    let (worst_word, worst_eq) = checked_add-some amount cost ha cost_word (ok_or_inv _ _ add) in
    let (cum_word, cum_eq) =
      checked_add-some _ worst hf.cumulative worst_word (ok_or_inv _ _ add_cum) in
    let (life_word, life_eq) =
      checked_add-some _ worst hf.lifetime worst_word (ok_or_inv _ _ add_life) in
    let rate = from_u64 f.max_effective_gas_fee_rate in
    subst (λ g. Debited f g amount gas_limit gas_price) (accepted_inv h9)
      (record {
        configured = refuse_inv _ _ set;
        amount_capped =
            le_of_bytes_lt f.per_dispense_max_amount amount hf.per_dispense ha
              (refuse_inv _ _ amount_ok);
        gas_capped = le_of_ltb f.max_gas_limit gas_limit (refuse_inv _ _ gas_ok);
        rate_capped = omega (
          arith,
          le_of_bytes_lt rate gas_price (from_u64-IsWord f.max_effective_gas_fee_rate) hp
              (refuse_inv _ _ rate_ok),
          from_u64-value f.max_effective_gas_fee_rate hf.rate,
        );
        cumulative_eq = omega (arith, cost_eq, worst_eq, cum_eq);
        lifetime_eq = omega (arith, cost_eq, worst_eq, life_eq);
        in_budget =
            le_of_bytes_lt f.cumulative_signing_budget cum hf.budget cum_word
              (refuse_inv _ _ budget_ok);
        in_breaker =
            within_breaker f.circuit_breaker_threshold life hf.breaker life_word
              (refuse_inv _ _ breaker_ok);
        rest_same = refl;
        still_words = (cum_word, life_word);
      })
