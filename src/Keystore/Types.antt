-- ===== src/Keystore/Types.antt =====
-- The data of agent_keystore.rs.
use d_hsm.Prelude.{ℕ, List, Option, ◌≡◌, refl, Bool, true, false, if◌then◌else◌}

pub data KeystoreError : Type 0 where
  too_short bad_magic unsupported_version measurement_mismatch empty_measurement : KeystoreError
  aead_key encrypt decrypt csprng cbor : KeystoreError
  capacity_exceeded counter_regression invalid_field_length invalid_environment_id : KeystoreError
  invalid_structural_version invalid_scope_id duplicate_key_ref duplicate_counter_tuple :
      KeystoreError
  blob_too_large monotonic_overflow audit_backpressure audit_seq_disorder : KeystoreError

-- `Result<A, KeystoreError>`.
pub data Result {ℓ} (A : Type ℓ) : Type ℓ where
  ok : A → Result A
  err : KeystoreError → Result A

infixl 5 ◌>>◌ ◌>>=◌
abbrev pub ◌>>=◌ {κ ι} : {X : Type κ} {Y : Type ι} → Result X → (X → Result Y) → Result Y
err why >>= next = err why
ok x >>= next = next x

abbrev pub ◌>>◌ {ι} : {Y : Type ι} → Result (Unit {0}) → Result Y → Result Y
first >> rest = first >>= λ done. rest

pub data KeyPurpose : Type 0 where
  agent_faucet_treasury_k1 agent_transfer_k1 : KeyPurpose

pub data KeyAlgorithm : Type 0 where
  secp256k1 : KeyAlgorithm

pub record CreationMetadata : Type 0 where
  pub config_version : ℕ
  pub counter_snapshot : ℕ
  pub batch_id : ℕ

pub record BackupExportMetadata : Type 0 where
  pub last_exported_seq : ℕ

pub record KeyEntry : Type 0 where
  pub key_ref : List ℕ
  pub purpose : KeyPurpose
  pub algorithm : KeyAlgorithm
  pub public_identity : List ℕ
  pub secret_scalar : List ℕ
  pub creation_metadata : CreationMetadata
  pub backup_export_metadata : BackupExportMetadata

pub record CounterEntry : Type 0 where
  pub authority : List ℕ
  pub environment_identifier : List ℕ
  pub scope_class : ℕ
  pub scope_target : List ℕ
  pub highest_accepted_counter : ℕ

pub record FaucetState : Type 0 where
  pub per_dispense_max_amount : List ℕ
  pub max_gas_limit : ℕ
  pub max_effective_gas_fee_rate : ℕ
  pub cumulative_native_spend : List ℕ
  pub lifetime_spend : List ℕ
  pub circuit_breaker_threshold : Option (List ℕ)
  pub cumulative_signing_budget : List ℕ

pub record AuditRecord : Type 0 where
  pub seq : ℕ
  pub op : ℕ
  pub authority : List ℕ
  pub counter : ℕ
  pub config_version : ℕ
  pub scope_class : ℕ
  pub scope_target : List ℕ
  pub request_id : List ℕ

pub record AuditAppend : Type 0 where
  pub op : ℕ
  pub authority : List ℕ
  pub counter : ℕ
  pub config_version : ℕ
  pub scope_class : ℕ
  pub scope_target : List ℕ
  pub request_id : List ℕ

pub record AuditRing : Type 0 where
  pub records : List AuditRecord
  pub capacity : ℕ
  pub last_exported_seq : ℕ
  pub next_seq : ℕ

pub record KeystoreConfig : Type 0 where
  pub twod_chain_id : ℕ
  pub environment_identifier : List ℕ
  pub admin_authority_pk : List ℕ
  pub recovery_authority_pk : List ℕ
  pub backup_recovery_wrapping_pubkey : List ℕ
  pub monotonic_treasury_config_version : ℕ
  pub authority_epoch : ℕ
  pub anchor_root : List ℕ
  pub enclave_scope_id : List ℕ
  pub fleet_scope_id : List ℕ

pub record KeystoreBody : Type 0 where
  pub config : KeystoreConfig
  pub entries : List KeyEntry
  pub counters : List CounterEntry
  pub faucet : FaucetState
  pub audit : AuditRing
  pub freshness_epoch : ℕ
  pub structural_version : ℕ
  pub strict_recovery_counter : ℕ

abbrev pub max_total_key_entries : ℕ
max_total_key_entries = 4096

abbrev pub max_counter_entries : ℕ
max_counter_entries = 65536

abbrev pub max_audit_capacity : ℕ
max_audit_capacity = 65536

abbrev pub secp256k1_uncompressed_len : ℕ
secp256k1_uncompressed_len = 65

abbrev pub secret_scalar_len : ℕ
secret_scalar_len = 32

abbrev pub ml_kem_1024_encaps_key_len : ℕ
ml_kem_1024_encaps_key_len = 1568

pub >>=-eq-ok {κ ι} :
    {X : Type κ} {Y : Type ι} (r : Result X) (next : X → Result Y) {y : Y}
    → (r >>= next) ≡ ok y
    → (x : X) × (r ≡ ok x) × (next x ≡ ok y)
>>=-eq-ok (err why) next e = cc
>>=-eq-ok (ok x) next e = (x, refl, e)

pub ok_inv {ℓ} : {A : Type ℓ} {a b : A} → ok a ≡ ok b → a ≡ b
ok_inv h = cc

-- A guard that let a success pass did not hold.
pub unless-ok {ℓ} :
    {A : Type ℓ} (b : Bool) (e : KeystoreError) {m : Result A} {a : A}
    → (if b then err e else m) ≡ ok a
    → (b ≡ false) × (m ≡ ok a)
unless-ok true e h = cc
unless-ok false e h = (refl, h)
