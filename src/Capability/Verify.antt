-- ===== src/Capability/Verify.antt =====
-- `signed_preimage`, `verify_capability_extract` and `payload_binding` of agent_capability.rs.
-- `keccak256` is an argument of `payload_binding`.
use d_hsm.Prelude.{
  ℕ, ◌+◌, ◌^◌, List, [], ◌∷◌, ◌++◌, Bool, false, not, ◌||◌, Option, none, some, leb, ◌==◌,
  if◌then◌else◌,
}
use d_hsm.Prelude.Bytes.{bytes_eq}
use d_hsm.Prelude.Attempt.{Attempt, done, failed, ensure, ◌>>=◌, ◌>>◌}
use d_hsm.Crypto.{Crypto}
use d_hsm.Cbor.Value.{Entries}
use d_hsm.Cbor.Encode.{put_uint, put_text, put_bytes}
use d_hsm.Keystore.Types.{KeystoreConfig, CounterEntry}
use d_hsm.Keystore.Counter.{RowKey, find_row}
use d_hsm.Capability.Parse.{
  Capability, AgentError, malformed, capability_rejected, parse_capability,
  opcode_configure_treasury,
}

abbrev pub cap_domain : List ℕ
cap_domain =
    b'2' ∷ b'd' ∷ b'-' ∷ b'h' ∷ b's' ∷ b'm' ∷ b'/' ∷ b'a' ∷ b'g' ∷ b'e' ∷ b'n' ∷ b't' ∷ b'-' ∷ b'c'
    ∷ b'a' ∷ b'p' ∷ b'/' ∷ b'v' ∷ b'1' ∷ 0 ∷ []

abbrev pub cap_format_version : ℕ
cap_format_version = 2

-- Key 3, when there is a sub-operation.
abbrev pub put_sub_op : Option ℕ → List ℕ
put_sub_op none = []
put_sub_op (some sub) = put_uint 0 3 ++ put_uint 0 sub

abbrev pub pair_count : Option ℕ → ℕ
pair_count none = 12
pair_count (some sub) = 13

unfoldable pub signed_preimage : Capability → List ℕ
unfolding put_uint put_text put_bytes
signed_preimage cap =
    let flag = if cap.is_recovery then 0xf5 else 0xf4 in
    let rest12 =
      put_uint 0 12 ++ ((flag ∷ []) ++ (put_uint 0 13 ++ put_bytes cap.scope_identity)) in
    let rest11 = put_uint 0 11 ++ (put_bytes cap.payload_binding ++ rest12) in
    let rest10 = put_uint 0 10 ++ (put_bytes cap.request_id ++ rest11) in
    let rest9 = put_uint 0 9 ++ (put_uint 0 cap.counter ++ rest10) in
    let rest8 = put_uint 0 8 ++ (put_bytes cap.scope_target ++ rest9) in
    let rest7 = put_uint 0 7 ++ (put_uint 0 cap.scope_class ++ rest8) in
    let rest6 = put_uint 0 6 ++ (put_text cap.environment_identifier ++ rest7) in
    let rest5 = put_uint 0 5 ++ (put_uint 0 cap.chain_id ++ rest6) in
    let rest4 = put_uint 0 4 ++ (put_uint 0 cap.key_purpose ++ rest5) in
    let rest2 =
      put_uint 0 2
      ++ (put_uint 0 cap.command_opcode ++ (put_sub_op cap.treasury_sub_op ++ rest4)) in
    cap_domain
    ++ (put_uint 5 (pair_count cap.treasury_sub_op)
        ++ (put_uint 0 1 ++ (put_uint 0 cap.cap_format_version ++ rest2)))

pub record VerifiedCapability : Type 0 where
  pub authority : List ℕ
  pub scope_class : ℕ
  pub scope_target : List ℕ
  pub counter : ℕ
  pub payload_binding : List ℕ
  pub key_purpose : ℕ
  pub treasury_sub_op : Option ℕ

abbrev pub treasury_sub_op_reset_lifetime_breaker : ℕ
treasury_sub_op_reset_lifetime_breaker = 3

abbrev pub treasury_tier_ok : Bool → Option ℕ → Bool
treasury_tier_ok is_recovery none = false
treasury_tier_ok is_recovery (some sub) =
    if sub == treasury_sub_op_reset_lifetime_breaker then is_recovery else not is_recovery

-- The match on the opcode.
abbrev pub tier_ok : Capability → Bool
tier_ok cap =
    if cap.command_opcode == 1 || cap.command_opcode == 7
    then not cap.is_recovery
    else if cap.command_opcode == 8
    then cap.is_recovery
    else if cap.command_opcode == opcode_configure_treasury
    then treasury_tier_ok cap.is_recovery cap.treasury_sub_op
    else false

abbrev pub authority_of : KeystoreConfig → Capability → List ℕ
authority_of config cap =
    if cap.is_recovery then config.recovery_authority_pk else config.admin_authority_pk

abbrev pub sealed_scope_id : KeystoreConfig → Capability → List ℕ
sealed_scope_id config cap =
    if cap.scope_class == 0 then config.enclave_scope_id else config.fleet_scope_id

-- The tuple of the counter row.
abbrev pub row_of : KeystoreConfig → Capability → RowKey
row_of config cap = record {
  authority = authority_of config cap;
  environment_identifier = cap.environment_identifier;
  scope_class = cap.scope_class;
  scope_target = cap.scope_target;
}

-- `unwrap_or(0)`.
abbrev pub counter_or_zero : Option CounterEntry → ℕ
counter_or_zero none = 0
counter_or_zero (some c) = c.highest_accepted_counter

-- `checked_add(1)` on a `u64`.
abbrev pub next_counter : ℕ → Attempt AgentError ℕ
next_counter n = if leb (2 ^ 64) (n + 1) then failed capability_rejected else done (n + 1)

unfoldable pub verify_capability_extract :
    Crypto
    → Entries
    → ℕ
    → List ℕ
    → KeystoreConfig
    → List CounterEntry
    → Attempt AgentError VerifiedCapability
unfolding parse_capability signed_preimage find_row bytes_eq
verify_capability_extract c m request_opcode request_id config counters = do
  cap ← parse_capability m
  ensure (cap.cap_format_version == cap_format_version) malformed
  ensure (tier_ok cap) capability_rejected
  ensure (c.key_ok (authority_of config cap)) capability_rejected
  ensure (c.verify_strict (authority_of config cap) (signed_preimage cap) cap.signature)
      capability_rejected
  ensure (cap.command_opcode == request_opcode) capability_rejected
  ensure (bytes_eq cap.request_id request_id) capability_rejected
  ensure (cap.chain_id == config.twod_chain_id) capability_rejected
  ensure (bytes_eq cap.environment_identifier config.environment_identifier) capability_rejected
  ensure (c.ct_eq cap.scope_identity (sealed_scope_id config cap)) capability_rejected
  expected ← next_counter (counter_or_zero (find_row (row_of config cap) counters))
  ensure (cap.counter == expected) capability_rejected
  done (record {
    authority = authority_of config cap;
    scope_class = cap.scope_class;
    scope_target = cap.scope_target;
    counter = cap.counter;
    payload_binding = cap.payload_binding;
    key_purpose = cap.key_purpose;
    treasury_sub_op = cap.treasury_sub_op;
  })

abbrev sub_op_byte : Option ℕ → List ℕ
sub_op_byte none = []
sub_op_byte (some s) = s ∷ []

unfoldable pub payload_binding : (List ℕ → List ℕ) → ℕ → Option ℕ → List ℕ → List ℕ → List ℕ
payload_binding keccak256 opcode sub request_id canonical_params =
    keccak256 ((opcode ∷ []) ++ (sub_op_byte sub ++ (request_id ++ canonical_params)))
