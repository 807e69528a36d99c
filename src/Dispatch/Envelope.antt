-- ===== src/Dispatch/Envelope.antt =====
-- `decode_envelope` of agent_dispatch.rs.
use d_hsm.Prelude.{ℕ, List, [], ◌∷◌, ◌&&◌, Option, none, some, leb, length}
use d_hsm.Prelude.Attempt.{Attempt, done, failed, ensure, ok_or, ◌>>=◌, ◌>>◌}
use d_hsm.Cbor.Value.{Value, Entries, text, map_of}
use d_hsm.Cbor.Access.{map_get, check_strict_keys, read_at, as_u8, as_bytes, as_bytes32}
use d_hsm.Cbor.Parser.{strict_decode_map}
use d_hsm.Anchor.Commit.{max_request_id_len}
use d_hsm.Capability.Parse.{AgentError, malformed}
use d_hsm.Dispatch.Types.{AgentEnvelope}

abbrev pub command_domain : List ℕ
command_domain =
    b'2' ∷ b'd' ∷ b'-' ∷ b'h' ∷ b's' ∷ b'm' ∷ b'/' ∷ b'a' ∷ b'g' ∷ b'e' ∷ b'n' ∷ b't' ∷ b'-' ∷ b'g'
    ∷ b'a' ∷ b't' ∷ b'e' ∷ b'w' ∷ b'a' ∷ b'y' ∷ b'/' ∷ b'v' ∷ b'1' ∷ []

abbrev pub domain_of : Option Value → Attempt AgentError (List ℕ)
domain_of (some (text s)) = done s
domain_of _ = failed malformed

-- A map, if it is there.
abbrev pub optional_map : Option Value → Attempt AgentError (Option Entries)
optional_map none = done none
optional_map (some (map_of m)) = done (some m)
optional_map (some _) = failed malformed

abbrev pub optional_key_ref : Option Value → Attempt AgentError (Option (List ℕ))
optional_key_ref none = done none
optional_key_ref (some v) = do b ← ok_or (as_bytes32 v) malformed; done (some b)

unfoldable pub decode_envelope : List ℕ → Attempt AgentError AgentEnvelope
unfolding strict_decode_map check_strict_keys map_get
decode_envelope wire = do
  m ← ok_or (strict_decode_map wire) malformed
  ensure (check_strict_keys m (λ n. leb 1 n && leb n 7)) malformed
  agent_version ← ok_or (read_at as_u8 m 1) malformed
  opcode ← ok_or (read_at as_u8 m 2) malformed
  domain ← domain_of (map_get m 3)
  request_id ← ok_or (read_at as_bytes m 4) malformed
  ensure (leb (length request_id) max_request_id_len) malformed
  capability ← optional_map (map_get m 5)
  key_ref ← optional_key_ref (map_get m 6)
  payload ← optional_map (map_get m 7)
  done (record {
    agent_version = agent_version;
    opcode = opcode;
    command_domain = domain;
    request_id = request_id;
    capability = capability;
    key_ref = key_ref;
    payload = payload;
  })
