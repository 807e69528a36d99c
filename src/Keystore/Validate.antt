-- ===== src/Keystore/Validate.antt =====
-- `is_valid_environment_identifier` and `KeystoreBody::validate` of agent_keystore.rs. The loops
-- carry what the `HashSet`s hold as a list.
pub mod Sound
use d_hsm.Prelude.{
  ℕ, List, [], ◌∷◌, Bool, true, false, not, ◌&&◌, ◌||◌, ltb, leb, ◌==◌, if◌then◌else◌, length,
  replicate,
}
use d_hsm.Prelude.Bytes.{bytes_eq}
use d_hsm.Envelope.Marks.{marks_scope_target_max_len}
use d_hsm.Keystore.Types.{
  KeystoreBody, KeystoreError, KeyEntry, CounterEntry, AuditRecord, AuditRing, Result, ok, err,
  invalid_structural_version, invalid_environment_id, invalid_scope_id, invalid_field_length,
  capacity_exceeded, duplicate_key_ref, duplicate_counter_tuple, audit_seq_disorder, ◌>>=◌, ◌>>◌,
  max_total_key_entries, max_counter_entries, max_audit_capacity, secp256k1_uncompressed_len,
  secret_scalar_len, ml_kem_1024_encaps_key_len,
}

-- `if test { return Err(e) }`.
abbrev pub refuse_if : Bool → KeystoreError → Result (Unit {0})
refuse_if true e = err e
refuse_if false e = ok tt

-- A character of `[a-z0-9-]`.
abbrev pub environment_char : ℕ → Bool
environment_char c = (leb b'a' c && leb c b'z') || (leb b'0' c && leb c b'9') || c == b'-'

abbrev pub first_or_zero : List ℕ → ℕ
first_or_zero [] = 0
first_or_zero (c ∷ cs) = c

abbrev pub last_or_zero : List ℕ → ℕ
last_or_zero [] = 0
last_or_zero (c ∷ []) = c
last_or_zero (c ∷ d ∷ cs) = last_or_zero (d ∷ cs)

unfoldable pub environment_loop : Bool → List ℕ → Bool
environment_loop prev_hyphen [] = true
environment_loop prev_hyphen (c ∷ cs) =
    environment_char c && not (c == b'-' && prev_hyphen) && environment_loop (c == b'-') cs

unfoldable pub is_valid_environment_identifier : List ℕ → Bool
unfolding environment_loop
is_valid_environment_identifier b =
    if length b == 0 || ltb 64 (length b)
    then false
    else if first_or_zero b == b'-' || last_or_zero b == b'-'
    then false
    else environment_loop false b

unfoldable pub validate_environment_identifier : List ℕ → Result (Unit {0})
unfolding is_valid_environment_identifier
validate_environment_identifier s =
    if is_valid_environment_identifier s then ok tt else err invalid_environment_id

abbrev pub contains : List (List ℕ) → List ℕ → Bool
contains [] x = false
contains (y ∷ ys) x = bytes_eq y x || contains ys x

-- The loop over the key entries.
unfoldable pub check_entries : List (List ℕ) → List KeyEntry → Result (Unit {0})
unfolding bytes_eq
check_entries seen [] = ok tt
check_entries seen (e ∷ es) = do
  refuse_if
      (not (length e.public_identity == secp256k1_uncompressed_len)
        || not (first_or_zero e.public_identity == 0x04))
      invalid_field_length
  refuse_if (not (length e.secret_scalar == secret_scalar_len)) invalid_field_length
  refuse_if (contains seen e.key_ref) duplicate_key_ref
  check_entries (e.key_ref ∷ seen) es

-- Rows of the same tuple `(authority, scope_class, scope_target)`.
unfoldable pub same_tuple : CounterEntry → CounterEntry → Bool
unfolding bytes_eq
same_tuple a b =
    bytes_eq a.authority b.authority
    && a.scope_class == b.scope_class
    && bytes_eq a.scope_target b.scope_target

abbrev pub has_tuple : List CounterEntry → CounterEntry → Bool
has_tuple [] c = false
has_tuple (d ∷ ds) c = same_tuple d c || has_tuple ds c

-- The loop over the counter rows.
unfoldable pub check_counters : List ℕ → List CounterEntry → List CounterEntry → Result (Unit {0})
unfolding same_tuple validate_environment_identifier bytes_eq
check_counters env seen [] = ok tt
check_counters env seen (c ∷ cs) = do
  validate_environment_identifier c.environment_identifier
  refuse_if (not (bytes_eq c.environment_identifier env)) invalid_environment_id
  refuse_if (ltb marks_scope_target_max_len (length c.scope_target)) invalid_field_length
  refuse_if (has_tuple seen c) duplicate_counter_tuple
  check_counters env (c ∷ seen) cs

-- `MAX_SCOPE_TARGET_LEN` and `MAX_REQUEST_ID_LEN`.
abbrev pub max_scope_target_len : ℕ
max_scope_target_len = 64

abbrev pub max_request_id_len : ℕ
max_request_id_len = 64

unfoldable pub check_records : List AuditRecord → Result (Unit {0})
check_records [] = ok tt
check_records (r ∷ rs) = do
  refuse_if
      (ltb max_scope_target_len (length r.scope_target)
        || ltb max_request_id_len (length r.request_id))
      invalid_field_length
  check_records rs

-- The pass over `windows(2)`, and `next_seq` past the last record.
unfoldable pub check_seqs : ℕ → List AuditRecord → Result (Unit {0})
check_seqs next_seq [] = ok tt
check_seqs next_seq (r ∷ []) = refuse_if (leb next_seq r.seq) audit_seq_disorder
check_seqs next_seq (r ∷ s ∷ rs) = do
  refuse_if (leb s.seq r.seq) audit_seq_disorder
  check_seqs next_seq (s ∷ rs)

unfoldable pub validate : KeystoreBody → Result (Unit {0})
unfolding validate_environment_identifier check_entries check_counters check_records check_seqs
    bytes_eq
validate body = do
  let config = body.config
  let ring = body.audit
  refuse_if (body.structural_version == 0) invalid_structural_version
  validate_environment_identifier config.environment_identifier
  refuse_if
      (bytes_eq config.enclave_scope_id (replicate 32 0)
        || bytes_eq config.fleet_scope_id (replicate 32 0)
        || bytes_eq config.enclave_scope_id config.fleet_scope_id)
      invalid_scope_id
  refuse_if (not (length config.backup_recovery_wrapping_pubkey == ml_kem_1024_encaps_key_len))
      invalid_field_length
  refuse_if
      (ltb max_total_key_entries (length body.entries)
        || ltb max_counter_entries (length body.counters))
      capacity_exceeded
  check_entries [] body.entries
  check_counters config.environment_identifier [] body.counters
  refuse_if (ltb max_audit_capacity ring.capacity || ltb ring.capacity (length ring.records))
      capacity_exceeded
  check_records ring.records
  check_seqs ring.next_seq ring.records
  refuse_if (leb ring.next_seq ring.last_exported_seq) audit_seq_disorder
