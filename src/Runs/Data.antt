-- ===== src/Runs/Data.antt =====
-- The data of the runs: a sealed body that validates, and cryptography that can be computed.
use d_hsm.Prelude.{
  ℕ, ◌≡◌, refl, subst, List, [], ◌∷◌, Bool, true, false, ◌&&◌, none, ltb, ltb→lt, arith, length,
  replicate, All,
}
use d_hsm.Prelude.Bytes.{IsByte, bytes_eq, bytes_eq_sound, bytes_eq_refl}
use d_hsm.Crypto.{Crypto, IsCtEq}
use d_hsm.U256.Exact.{IsWord}
use d_hsm.Keystore.Faucet.Gate.{IsFaucet}
use d_hsm.Keystore.Types.{KeystoreBody, KeystoreConfig, FaucetState, AuditRing, AuditAppend}

abbrev pub all_bytes : List ℕ → Bool
all_bytes [] = true
all_bytes (b ∷ bs) = ltb b 256 && all_bytes bs

abbrev pub word : ℕ → List ℕ
word n = replicate 32 n

-- A hash that tells payloads of different lengths apart, and a key that accepts one signature.
abbrev pub toy : Crypto
toy = record {
  sha3_256 = λ l. word (length l);
  sha3_512 = λ l. replicate 64 (length l);
  key_ok = λ k. true;
  verify_strict = λ k m s. bytes_eq s (replicate 64 1);
  ct_eq = bytes_eq;
}

abbrev pub env_name : List ℕ
env_name = b'd' ∷ b'e' ∷ b'v' ∷ []

abbrev pub sealed_config : KeystoreConfig
sealed_config = record {
  twod_chain_id = 7;
  environment_identifier = env_name;
  admin_authority_pk = word 2;
  recovery_authority_pk = word 3;
  backup_recovery_wrapping_pubkey = replicate 1568 0;
  monotonic_treasury_config_version = 1;
  authority_epoch = 1;
  anchor_root = word 4;
  enclave_scope_id = word 5;
  fleet_scope_id = word 6;
}

abbrev pub faucet : FaucetState
faucet = record {
  per_dispense_max_amount = word 1;
  max_gas_limit = 100;
  max_effective_gas_fee_rate = 10;
  cumulative_native_spend = word 0;
  lifetime_spend = word 0;
  circuit_breaker_threshold = none;
  cumulative_signing_budget = word 2;
}

abbrev pub ring : AuditRing
ring = record { records = []; capacity = 2; last_exported_seq = 0; next_seq = 1 }

abbrev pub body : KeystoreBody
body = record {
  config = sealed_config;
  entries = [];
  counters = [];
  faucet = faucet;
  audit = ring;
  freshness_epoch = 5;
  structural_version = 1;
  strict_recovery_counter = 0;
}

abbrev pub fact : AuditAppend
fact = record {
  op = 6;
  authority = word 2;
  counter = 1;
  config_version = 1;
  scope_class = 0;
  scope_target = b't' ∷ [];
  request_id = 9 ∷ [];
}

all_bytes_cons :
    (b : ℕ) (t : Bool) (bs : List ℕ)
    → (t && all_bytes bs) ≡ true
    → (t ≡ true) × (all_bytes bs ≡ true)
all_bytes_cons b true bs h = (refl, h)
all_bytes_cons b false bs h = cc

pub all_bytes_sound : (l : List ℕ) → all_bytes l ≡ true → All IsByte l
all_bytes_sound [] h = tt
all_bytes_sound (b ∷ bs) h =
    let (first, rest) = all_bytes_cons b (ltb b 256) bs h in
    (ltb→lt b 256 first, all_bytes_sound bs rest)

pub word-IsWord : (n : ℕ) → all_bytes (word n) ≡ true → IsWord (word n)
word-IsWord n h = record { len = refl; each = all_bytes_sound (word n) h }

pub toy-IsCtEq : IsCtEq toy
toy-IsCtEq = record {
  exact = λ xs ys.
      (λ h. bytes_eq_sound xs ys h, λ e. subst (λ z. bytes_eq xs z ≡ true) e (bytes_eq_refl xs));
}

pub faucet-IsFaucet : IsFaucet faucet
faucet-IsFaucet = record {
  per_dispense = word-IsWord 1 refl;
  rate = omega arith;
  cumulative = word-IsWord 0 refl;
  lifetime = word-IsWord 0 refl;
  budget = word-IsWord 2 refl;
  breaker = λ b h. cc;
}
