-- ===== src/Keystore/Validate/Sound.antt =====
-- `validate` of agent_keystore.rs, and a sealed body described without it.
use d_hsm.Prelude.{
  ℕ, ◌≤◌, ◌<◌, ◌≡◌, ◌≢◌, refl, subst, List, [], ◌∷◌, Bool, true, false, not, ◌||◌, arith, ltb, leb,
  ◌==◌, length, replicate, or-eq_false, le_of_ltb, ==_iff,
}
use d_hsm.Prelude.Bytes.{bytes_eq, bytes_eq_sound, bytes_eq_refl}
use d_hsm.Keystore.Types.{
  KeystoreBody, KeystoreError, CounterEntry, KeyEntry, Result, ok, err, ◌>>◌,
  invalid_structural_version, invalid_environment_id, invalid_scope_id, invalid_field_length,
  capacity_exceeded, duplicate_key_ref, duplicate_counter_tuple, audit_seq_disorder,
  max_total_key_entries, max_counter_entries, max_audit_capacity, secret_scalar_len,
  secp256k1_uncompressed_len, ml_kem_1024_encaps_key_len,
}
use d_hsm.Keystore.Validate.{
  refuse_if, contains, check_entries, has_tuple, check_counters, check_records, check_seqs,
  validate, validate_environment_identifier, first_or_zero,
}
use d_hsm.Keystore.Audit.Ring.{IsRing, check_seqs-Ascending}

refuse_if-ok :
    (b : Bool) (e : KeystoreError) (m : Result (Unit {0}))
    → (refuse_if b e >> m) ≡ ok tt
    → (b ≡ false) × (m ≡ ok tt)
refuse_if-ok true e m h = cc
refuse_if-ok false e m h = (refl, h)

then-ok : (m k : Result (Unit {0})) → (m >> k) ≡ ok tt → (m ≡ ok tt) × (k ≡ ok tt)
then-ok (ok u) k h = (refl, h)
then-ok (err e) k h = cc

not-eq_false : (b : Bool) → not b ≡ false → b ≡ true
not-eq_false true h = refl
not-eq_false false h = cc

true_not_false : {b : Bool} → b ≡ true → b ≡ false → ⊥
true_not_false h k = cc

lt_of_leb : (a b : ℕ) → leb a b ≡ false → b < a
lt_of_leb a b h = ground (arith, h)

last-ok : (b : Bool) (e : KeystoreError) → refuse_if b e ≡ ok tt → b ≡ false
last-ok true e h = cc
last-ok false e h = refl

scopes_differ :
    (e f z : List ℕ) → e ≡ f → (bytes_eq e z || bytes_eq f z || bytes_eq e f) ≡ false → ⊥
scopes_differ e f z same h =
    let (zeros, differ) = or-eq_false (bytes_eq e z || bytes_eq f z) (bytes_eq e f) h in
    true_not_false (subst (λ t. bytes_eq e t ≡ true) same (bytes_eq_refl e)) differ

-- No row has the tuple of one before it, and each is of the environment.
abbrev pub Rows : List ℕ → List CounterEntry → List CounterEntry → Type 0
Rows env seen [] = Unit
Rows env seen (c ∷ cs) =
    (c.environment_identifier ≡ env) × (has_tuple seen c ≡ false) × Rows env (c ∷ seen) cs

check_counters_sound :
    (env : List ℕ) (seen cs : List CounterEntry)
    → check_counters env seen cs ≡ ok tt
    → Rows env seen cs
unfolding check_counters
check_counters_sound env seen [] h = tt
check_counters_sound env seen (c ∷ cs) h =
    let (valid, h1) = then-ok (validate_environment_identifier c.environment_identifier) _ h in
    let (same, h2) =
      refuse_if-ok (not (bytes_eq c.environment_identifier env)) invalid_environment_id _ h1 in
    let (len, h3) = refuse_if-ok (ltb _ (length c.scope_target)) invalid_field_length _ h2 in
    let (unseen, h4) = refuse_if-ok (has_tuple seen c) duplicate_counter_tuple _ h3 in
    (
      bytes_eq_sound c.environment_identifier env
          (not-eq_false (bytes_eq c.environment_identifier env) same),
      unseen,
      check_counters_sound env (c ∷ seen) cs h4,
    )

-- No key reference repeats, and secrets are 32 bytes long.
abbrev pub Keys : List (List ℕ) → List KeyEntry → Type 0
Keys seen [] = Unit
Keys seen (k ∷ ks) =
    (length k.secret_scalar ≡ 32) × (contains seen k.key_ref ≡ false) × Keys (k.key_ref ∷ seen) ks

check_entries_sound :
    (seen : List (List ℕ)) (ks : List KeyEntry) → check_entries seen ks ≡ ok tt → Keys seen ks
unfolding check_entries
check_entries_sound seen [] h = tt
check_entries_sound seen (k ∷ ks) h =
    let (point, h1) =
      refuse_if-ok
        (not (length k.public_identity == secp256k1_uncompressed_len)
          || not (first_or_zero k.public_identity == 0x04))
        invalid_field_length _ h in
    let (secret, h2) =
      refuse_if-ok (not (length k.secret_scalar == secret_scalar_len)) invalid_field_length _ h1 in
    let (unseen, h3) = refuse_if-ok (contains seen k.key_ref) duplicate_key_ref _ h2 in
    (
      (==_iff (length k.secret_scalar) 32).0 (not-eq_false (length k.secret_scalar == 32) secret),
      unseen,
      check_entries_sound (k.key_ref ∷ seen) ks h3,
    )

-- A body that passed.
pub record IsBody (body : KeystoreBody) : Type 0 where
  pub structural : body.structural_version ≢ 0
  pub scopes_apart : body.config.enclave_scope_id ≢ body.config.fleet_scope_id
  pub key_bound : length body.entries ≤ max_total_key_entries
  pub row_bound : length body.counters ≤ max_counter_entries
  pub keys : Keys [] body.entries
  pub rows : Rows body.config.environment_identifier [] body.counters
  pub ring : IsRing body.audit
  pub ring_bound : body.audit.capacity ≤ max_audit_capacity

-- A body that validates has a structural version, distinct scope identifiers, at most 4096 keys of
-- distinct references, at most 65536 counter rows of distinct tuples in its own environment, and a
-- well-formed audit ring.
pub validate_sound : (body : KeystoreBody) → validate body ≡ ok tt → IsBody body
unfolding validate
validate_sound body h =
    let config = body.config in
    let ring = body.audit in
    let e = config.enclave_scope_id in
    let f = config.fleet_scope_id in
    let zero_id = replicate 32 0 in
    let (version, h1) =
      refuse_if-ok (body.structural_version == 0) invalid_structural_version _ h in
    let (env, h2) = then-ok (validate_environment_identifier config.environment_identifier) _ h1 in
    let (scope, h3) =
      refuse_if-ok (bytes_eq e zero_id || bytes_eq f zero_id || bytes_eq e f) invalid_scope_id _
        h2 in
    let (wrap, h4) =
      refuse_if-ok
        (not (length config.backup_recovery_wrapping_pubkey == ml_kem_1024_encaps_key_len))
        invalid_field_length _ h3 in
    let (sizes, h5) =
      refuse_if-ok
        (ltb max_total_key_entries (length body.entries)
          || ltb max_counter_entries (length body.counters))
        capacity_exceeded _ h4 in
    let (keys, h6) = then-ok (check_entries [] body.entries) _ h5 in
    let (rows, h7) = then-ok (check_counters config.environment_identifier [] body.counters) _ h6 in
    let (caps, h8) =
      refuse_if-ok (ltb max_audit_capacity ring.capacity || ltb ring.capacity (length ring.records))
        capacity_exceeded _ h7 in
    let (records, h9) = then-ok (check_records ring.records) _ h8 in
    let (seqs, h10) = then-ok (check_seqs ring.next_seq ring.records) _ h9 in
    let exported = last-ok (leb ring.next_seq ring.last_exported_seq) audit_seq_disorder h10 in
    let (few_keys, few_rows) =
      or-eq_false (ltb max_total_key_entries (length body.entries)) _ sizes in
    let (small, holds) = or-eq_false (ltb max_audit_capacity ring.capacity) _ caps in
    record {
      structural = λ z. true_not_false ((==_iff body.structural_version 0).1 z) version;
      scopes_apart = λ same. scopes_differ e f zero_id same scope;
      key_bound = le_of_ltb max_total_key_entries (length body.entries) few_keys;
      row_bound = le_of_ltb max_counter_entries (length body.counters) few_rows;
      keys = check_entries_sound [] body.entries keys;
      rows = check_counters_sound config.environment_identifier [] body.counters rows;
      ring = record {
        ascending = check_seqs-Ascending ring.next_seq ring.records seqs;
        bounded = le_of_ltb ring.capacity (length ring.records) holds;
        exported = lt_of_leb ring.next_seq ring.last_exported_seq exported;
      };
      ring_bound = le_of_ltb max_audit_capacity ring.capacity small;
    }
