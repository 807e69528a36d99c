-- ===== src/Dispatch/Identity.antt =====
-- `handle_public_identity`, `load_keypair_for` and `handle_prove_identity` of agent_dispatch.rs.
use d_hsm.Prelude.{◌==◌, length}
use d_hsm.Prelude.Attempt.{Attempt, done, ensure, ok_or, map_err, ◌>>=◌, ◌>>◌}
use d_hsm.Cbor.Access.{read_at, map_get, as_bytes32}
use d_hsm.Keystore.Types.{KeystoreBody, KeyEntry}
use d_hsm.Capability.Parse.{AgentError, malformed, key_purpose_mismatch}
use d_hsm.Signer.Curve.{Curve, Keypair, from_secret_bytes}
use d_hsm.Signer.Identity.{find_entry, public_identity_from_entry, sign_identity_proof}
use d_hsm.Dispatch.Types.{
  AgentEnvelope, AgentResponse, public_identity, prove_identity, entry_count,
}

unfoldable pub handle_public_identity :
    Curve → AgentEnvelope → KeystoreBody → Attempt AgentError AgentResponse
unfolding find_entry public_identity_from_entry
handle_public_identity k env keystore = do
  key_ref ← ok_or env.key_ref malformed
  entry ← ok_or (find_entry keystore key_ref) key_purpose_mismatch
  identity ← map_err (λ _. key_purpose_mismatch) (public_identity_from_entry k entry)
  done (public_identity identity)

unfoldable pub load_keypair_for : Curve → KeyEntry → Attempt AgentError Keypair
unfolding from_secret_bytes
load_keypair_for k entry = do
  ensure (length entry.secret_scalar == 32) key_purpose_mismatch
  map_err (λ _. key_purpose_mismatch) (from_secret_bytes k entry.secret_scalar)

unfoldable pub handle_prove_identity :
    Curve → AgentEnvelope → KeystoreBody → Attempt AgentError AgentResponse
unfolding map_get find_entry load_keypair_for sign_identity_proof
handle_prove_identity k env keystore = do
  key_ref ← ok_or env.key_ref malformed
  payload ← ok_or env.payload malformed
  ensure (entry_count payload == 1) malformed
  verifier_nonce ← ok_or (read_at as_bytes32 payload 1) malformed
  entry ← ok_or (find_entry keystore key_ref) key_purpose_mismatch
  keypair ← load_keypair_for k entry
  proof ←
      map_err (λ _. key_purpose_mismatch)
        (sign_identity_proof k keypair keystore.config.twod_chain_id
          keystore.config.environment_identifier key_ref verifier_nonce)
  done (prove_identity proof)
