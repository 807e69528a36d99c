-- ===== src/Dispatch/Generate.antt =====
-- `generate_keys_canonical_params`, `map_keygen_error` and the checks of
-- `handle_generate_keys` of agent_dispatch.rs. `usize` is 64 bits wide, so that the count always fits it.
use d_hsm.Prelude.{ℕ, List, ◌++◌, not, ◌&&◌, none, ◌==◌, if◌then◌else◌}
use d_hsm.Prelude.Attempt.{Attempt, done, failed, ensure, ok_or, ◌>>=◌, ◌>>◌}
use d_hsm.Crypto.{Crypto}
use d_hsm.Cbor.Encode.{put_uint}
use d_hsm.Cbor.Access.{map_get, read_at, as_u64}
use d_hsm.Keystore.Types.{
  KeystoreBody, KeyPurpose, agent_transfer_k1, agent_faucet_treasury_k1, CreationMetadata,
}
use d_hsm.Capability.Parse.{
  AgentError, malformed, key_purpose_mismatch, capability_rejected, cap_exceeded, seal_failed,
}
use d_hsm.Capability.Verify.{VerifiedCapability, payload_binding}
use d_hsm.Signer.Curve.{Curve}
use d_hsm.Signer.Keygen.{
  GenerateKeysError, invalid_count, treasury_exists, capacity_exceeded, csprng, is_treasury,
}
use d_hsm.Dispatch.Types.{AgentEnvelope, entry_count}

unfoldable pub generate_keys_canonical_params : ℕ → ℕ → List ℕ
unfolding put_uint
generate_keys_canonical_params purpose_code count =
    put_uint 5 2
    ++ (put_uint 0 1 ++ (put_uint 0 purpose_code ++ (put_uint 0 2 ++ put_uint 0 count)))

abbrev pub purpose_of : ℕ → Attempt AgentError KeyPurpose
purpose_of code =
    if code == 1
    then done agent_transfer_k1
    else if code == 2
    then done agent_faucet_treasury_k1
    else failed malformed

abbrev pub map_keygen_error : GenerateKeysError → AgentError
map_keygen_error invalid_count = malformed
map_keygen_error treasury_exists = capability_rejected
map_keygen_error capacity_exceeded = cap_exceeded
map_keygen_error csprng = seal_failed

abbrev pub creation_of : KeystoreBody → VerifiedCapability → CreationMetadata
creation_of keystore v = record {
  config_version = keystore.config.monotonic_treasury_config_version;
  counter_snapshot = v.counter;
  batch_id = v.counter;
}

-- What the checks of the handler leave.
pub record GenerateRequest : Type 0 where
  pub purpose : KeyPurpose
  pub count : ℕ

-- The checks of the handler, up to the candidate.
unfoldable pub generate_request :
    Crypto → Curve → AgentEnvelope → VerifiedCapability → Attempt AgentError GenerateRequest
unfolding map_get payload_binding generate_keys_canonical_params
generate_request c k env v = do
  payload ← ok_or env.payload malformed
  ensure (entry_count payload == 2) malformed
  purpose_code ← ok_or (read_at as_u64 payload 1) malformed
  count ← ok_or (read_at as_u64 payload 2) malformed
  purpose ← purpose_of purpose_code
  ensure (v.key_purpose == purpose_code) key_purpose_mismatch
  let computed =
      payload_binding k.keccak256 env.opcode none env.request_id
        (generate_keys_canonical_params purpose_code count)
  ensure (c.ct_eq computed v.payload_binding) capability_rejected
  ensure (not (is_treasury purpose && not (v.scope_class == 0))) capability_rejected
  done (record { purpose = purpose; count = count })
