-- ===== src/Capability/Parsed.antt =====
-- `parse_capability` of agent_capability.rs: where the fields of a capability stand.
use d_hsm.Prelude.{ℕ, ◌≡◌, subst, List, not, ◌&&◌, Option, some, leb, ltb, length}
use d_hsm.Prelude.Attempt.{
  Attempt, done, ensure, ok_or, >>=-eq-done, ok_or-done, done_inv, ensure-done, ◌>>=◌, ◌>>◌,
}
use d_hsm.Cbor.Value.{Entries}
use d_hsm.Cbor.Access.{
  map_get, check_strict_keys, read_at, as_u64, as_u8, as_bytes, as_bytes32, as_bytes_n,
}
use d_hsm.Capability.Parse.{
  Capability, AgentError, malformed, max_cap_request_id_len, is_privileged_opcode,
  is_valid_scope_target, req_u64, req_u8, sub_op, environment_of, flag_of, parse_capability,
}

-- The keys from 9 on, after the fields before them.
abbrev tail :
    Entries → ℕ → ℕ → Option ℕ → ℕ → ℕ → List ℕ → ℕ → List ℕ → Attempt AgentError Capability
tail m version opcode sub purpose chain env class target = do
  counter ← req_u64 m 9
  request_id ← ok_or (read_at as_bytes m 10) malformed
  ensure (leb (length request_id) max_cap_request_id_len) malformed
  payload_binding ← ok_or (read_at as_bytes32 m 11) malformed
  is_recovery ← flag_of (map_get m 12)
  scope_identity ← ok_or (read_at as_bytes32 m 13) malformed
  signature ← ok_or (read_at (as_bytes_n 64) m 14) malformed
  done (record {
    cap_format_version = version;
    command_opcode = opcode;
    treasury_sub_op = sub;
    key_purpose = purpose;
    chain_id = chain;
    environment_identifier = env;
    scope_class = class;
    scope_target = target;
    counter = counter;
    request_id = request_id;
    payload_binding = payload_binding;
    is_recovery = is_recovery;
    scope_identity = scope_identity;
    signature = signature;
  })

-- The fields up to key 8 stand at their keys.
record Front (m : Entries) (version opcode : ℕ) (sub : Option ℕ) (purpose chain : ℕ) (env : List ℕ)
    (class : ℕ) (target : List ℕ) : Type 0 where
  at1 : read_at as_u64 m 1 ≡ some version
  at2 : read_at as_u8 m 2 ≡ some opcode
  at3 : sub_op opcode (map_get m 3) ≡ done sub
  at4 : read_at as_u8 m 4 ≡ some purpose
  at5 : read_at as_u64 m 5 ≡ some chain
  at6 : environment_of (map_get m 6) ≡ done env
  at7 : read_at as_u8 m 7 ≡ some class
  at8 : read_at as_bytes m 8 ≡ some target

-- Each field is the value at its key.
pub record Parsed (m : Entries) (cap : Capability) : Type 0 where
  pub version : read_at as_u64 m 1 ≡ some cap.cap_format_version
  pub opcode : read_at as_u8 m 2 ≡ some cap.command_opcode
  pub sub : sub_op cap.command_opcode (map_get m 3) ≡ done cap.treasury_sub_op
  pub purpose : read_at as_u8 m 4 ≡ some cap.key_purpose
  pub chain : read_at as_u64 m 5 ≡ some cap.chain_id
  pub environment : environment_of (map_get m 6) ≡ done cap.environment_identifier
  pub class : read_at as_u8 m 7 ≡ some cap.scope_class
  pub target : read_at as_bytes m 8 ≡ some cap.scope_target
  pub counter : read_at as_u64 m 9 ≡ some cap.counter
  pub request : read_at as_bytes m 10 ≡ some cap.request_id
  pub binding : read_at as_bytes32 m 11 ≡ some cap.payload_binding
  pub recovery : flag_of (map_get m 12) ≡ done cap.is_recovery
  pub identity : read_at as_bytes32 m 13 ≡ some cap.scope_identity
  pub signature : read_at (as_bytes_n 64) m 14 ≡ some cap.signature

tail-Parsed :
    (m : Entries) (v o : ℕ) (sub : Option ℕ) (p c : ℕ) (env : List ℕ) (class : ℕ) (target : List ℕ)
    (cap : Capability)
    → Front m v o sub p c env class target
    → tail m v o sub p c env class target ≡ done cap
    → Parsed m cap
tail-Parsed m v o sub p c env class target cap front h =
    let (counter, e9, h1) = >>=-eq-done (req_u64 m 9) _ h in
    let (request, e10, h2) = >>=-eq-done (ok_or (read_at as_bytes m 10) malformed) _ h1 in
    let (short, h3) = ensure-done (leb (length request) max_cap_request_id_len) malformed _ h2 in
    let (binding, e11, h4) = >>=-eq-done (ok_or (read_at as_bytes32 m 11) malformed) _ h3 in
    let (recovery, e12, h5) = >>=-eq-done (flag_of (map_get m 12)) _ h4 in
    let (identity, e13, h6) = >>=-eq-done (ok_or (read_at as_bytes32 m 13) malformed) _ h5 in
    let (signature, e14, h7) = >>=-eq-done (ok_or (read_at (as_bytes_n 64) m 14) malformed) _ h6 in
    subst (Parsed m) (done_inv h7) (record {
      version = front.at1;
      opcode = front.at2;
      sub = front.at3;
      purpose = front.at4;
      chain = front.at5;
      environment = front.at6;
      class = front.at7;
      target = front.at8;
      counter = ok_or-done (read_at as_u64 m 9) malformed e9;
      request = ok_or-done (read_at as_bytes m 10) malformed e10;
      binding = ok_or-done (read_at as_bytes32 m 11) malformed e11;
      recovery = e12;
      identity = ok_or-done (read_at as_bytes32 m 13) malformed e13;
      signature = ok_or-done (read_at (as_bytes_n 64) m 14) malformed e14;
    })

pub parse_capability-Parsed :
    (m : Entries) (cap : Capability) → parse_capability m ≡ done cap → Parsed m cap
unfolding parse_capability
parse_capability-Parsed m cap h =
    let (keys, h1) = ensure-done (check_strict_keys m (λ n. leb 1 n && leb n 14)) malformed _ h in
    let (v, e1, h2) = >>=-eq-done (req_u64 m 1) _ h1 in
    let (o, e2, h3) = >>=-eq-done (req_u8 m 2) _ h2 in
    let (known, h4) = ensure-done (is_privileged_opcode o) malformed _ h3 in
    let (sub, e3, h5) = >>=-eq-done (sub_op o (map_get m 3)) _ h4 in
    let (p, e4, h6) = >>=-eq-done (req_u8 m 4) _ h5 in
    let (purposed, h7) = ensure-done (leb 1 p && leb p 2) malformed _ h6 in
    let (c, e5, h8) = >>=-eq-done (req_u64 m 5) _ h7 in
    let (env, e6, h9) = >>=-eq-done (environment_of (map_get m 6)) _ h8 in
    let (class, e7, h10) = >>=-eq-done (req_u8 m 7) _ h9 in
    let (low, h11) = ensure-done (not (ltb 1 class)) malformed _ h10 in
    let (target, e8, h12) = >>=-eq-done (ok_or (read_at as_bytes m 8) malformed) _ h11 in
    let (valid, h13) = ensure-done (is_valid_scope_target target) malformed _ h12 in
    tail-Parsed m v o sub p c env class target cap
      (record {
        at1 = ok_or-done (read_at as_u64 m 1) malformed e1;
        at2 = ok_or-done (read_at as_u8 m 2) malformed e2;
        at3 = e3;
        at4 = ok_or-done (read_at as_u8 m 4) malformed e4;
        at5 = ok_or-done (read_at as_u64 m 5) malformed e5;
        at6 = e6;
        at7 = ok_or-done (read_at as_u8 m 7) malformed e7;
        at8 = ok_or-done (read_at as_bytes m 8) malformed e8;
      })
      h13
