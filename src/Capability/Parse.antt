-- ===== src/Capability/Parse.antt =====
-- `parse_capability` and `is_valid_scope_target` of agent_capability.rs.
use d_hsm.Prelude.{
  ℕ, List, [], ◌∷◌, Bool, true, not, ◌&&◌, ◌||◌, Option, none, some, ltb, leb, ◌==◌, length,
}
use d_hsm.Prelude.Attempt.{Attempt, done, failed, ensure, ok_or, ◌>>=◌, ◌>>◌}
use d_hsm.Cbor.Value.{Value, Entries, text, bool}
use d_hsm.Cbor.Access.{
  map_get, check_strict_keys, read_at, as_u64, as_u8, as_bytes, as_bytes32, as_bytes_n,
}
use d_hsm.Keystore.Validate.{is_valid_environment_identifier}

-- `AgentError` of agent_dispatch.rs.
pub data AgentError : Type 0 where
  malformed wrong_profile key_purpose_mismatch capability_rejected : AgentError
  cap_exceeded not_configured seal_failed : AgentError

pub record Capability : Type 0 where
  pub cap_format_version : ℕ
  pub command_opcode : ℕ
  pub treasury_sub_op : Option ℕ
  pub key_purpose : ℕ
  pub chain_id : ℕ
  pub environment_identifier : List ℕ
  pub scope_class : ℕ
  pub scope_target : List ℕ
  pub counter : ℕ
  pub request_id : List ℕ
  pub payload_binding : List ℕ
  pub is_recovery : Bool
  pub scope_identity : List ℕ
  pub signature : List ℕ

abbrev pub opcode_configure_treasury : ℕ
opcode_configure_treasury = 6

abbrev pub max_treasury_sub_op : ℕ
max_treasury_sub_op = 3

abbrev pub max_scope_target_len : ℕ
max_scope_target_len = 64

abbrev pub max_cap_request_id_len : ℕ
max_cap_request_id_len = 64

-- `PRIVILEGED_OPCODES.contains`.
abbrev pub is_privileged_opcode : ℕ → Bool
is_privileged_opcode n = n == 1 || n == opcode_configure_treasury || n == 7 || n == 8

abbrev pub target_char : ℕ → Bool
target_char c = (leb b'a' c && leb c b'z') || (leb b'0' c && leb c b'9') || c == b'_' || c == b'-'

abbrev pub all_target_chars : List ℕ → Bool
all_target_chars [] = true
all_target_chars (c ∷ cs) = target_char c && all_target_chars cs

unfoldable pub is_valid_scope_target : List ℕ → Bool
is_valid_scope_target b =
    not (length b == 0 || ltb max_scope_target_len (length b)) && all_target_chars b

abbrev pub req_u64 : Entries → ℕ → Attempt AgentError ℕ
req_u64 m k = ok_or (read_at as_u64 m k) malformed

abbrev pub req_u8 : Entries → ℕ → Attempt AgentError ℕ
req_u8 m k = ok_or (read_at as_u8 m k) malformed

-- Key 3, there exactly for a treasury command.
abbrev pub sub_op : ℕ → Option Value → Attempt AgentError (Option ℕ)
sub_op opcode none = do ensure (not (opcode == opcode_configure_treasury)) malformed; done none
sub_op opcode (some v) = do
  ensure (opcode == opcode_configure_treasury) malformed
  sub ← ok_or (as_u8 v) malformed
  ensure (not (ltb max_treasury_sub_op sub)) malformed
  done (some sub)

abbrev pub environment_of : Option Value → Attempt AgentError (List ℕ)
environment_of (some (text s)) = do ensure (is_valid_environment_identifier s) malformed; done s
environment_of _ = failed malformed

abbrev pub flag_of : Option Value → Attempt AgentError Bool
flag_of (some (bool b)) = done b
flag_of _ = failed malformed

unfoldable pub parse_capability : Entries → Attempt AgentError Capability
unfolding check_strict_keys map_get is_valid_environment_identifier is_valid_scope_target
parse_capability m = do
  ensure (check_strict_keys m (λ n. leb 1 n && leb n 14)) malformed
  cap_format_version ← req_u64 m 1
  command_opcode ← req_u8 m 2
  ensure (is_privileged_opcode command_opcode) malformed
  treasury_sub_op ← sub_op command_opcode (map_get m 3)
  key_purpose ← req_u8 m 4
  ensure (leb 1 key_purpose && leb key_purpose 2) malformed
  chain_id ← req_u64 m 5
  environment_identifier ← environment_of (map_get m 6)
  scope_class ← req_u8 m 7
  ensure (not (ltb 1 scope_class)) malformed
  scope_target ← ok_or (read_at as_bytes m 8) malformed
  ensure (is_valid_scope_target scope_target) malformed
  counter ← req_u64 m 9
  request_id ← ok_or (read_at as_bytes m 10) malformed
  ensure (leb (length request_id) max_cap_request_id_len) malformed
  payload_binding ← ok_or (read_at as_bytes32 m 11) malformed
  is_recovery ← flag_of (map_get m 12)
  scope_identity ← ok_or (read_at as_bytes32 m 13) malformed
  signature ← ok_or (read_at (as_bytes_n 64) m 14) malformed
  done (record {
    cap_format_version = cap_format_version;
    command_opcode = command_opcode;
    treasury_sub_op = treasury_sub_op;
    key_purpose = key_purpose;
    chain_id = chain_id;
    environment_identifier = environment_identifier;
    scope_class = scope_class;
    scope_target = scope_target;
    counter = counter;
    request_id = request_id;
    payload_binding = payload_binding;
    is_recovery = is_recovery;
    scope_identity = scope_identity;
    signature = signature;
  })
