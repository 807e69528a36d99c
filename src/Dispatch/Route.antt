-- ===== src/Dispatch/Route.antt =====
-- `anti_rollback_satisfied` and `dispatch_agent` of agent_dispatch.rs. Without
-- the backup feature nothing reads the measurement, so it is not an argument.
use d_hsm.Prelude.{ℕ, List, Bool, false, not, ◌&&◌, ◌||◌, Option, ◌==◌, if◌then◌else◌}
use d_hsm.Prelude.Bytes.{bytes_eq}
use d_hsm.Prelude.Attempt.{failed, ensure, ok_or}
use d_hsm.Prelude.Action.{Action, lift, ◌>>=◌, ◌>>◌}
use d_hsm.Crypto.{Crypto}
use d_hsm.Keystore.Types.{KeystoreBody}
use d_hsm.Boot.Process.{Process, is_anti_rollback_configured}
use d_hsm.Capability.Parse.{
  AgentError, malformed, wrong_profile, capability_rejected, not_configured,
}
use d_hsm.Capability.Verify.{VerifiedCapability}
use d_hsm.Signer.Curve.{Curve}
use d_hsm.Signer.Identity.{agent_gateway_version}
use d_hsm.Dispatch.Opcode.{
  AgentOpcode, from_u8, is_privileged, is_rollback_sensitive, generate_keys, configure_treasury,
  public_identity, prove_identity, sign_transfer, sign_faucet_dispense, get_restore_pubkey,
}
use d_hsm.Dispatch.Types.{
  Features, Profile, AgentEnvelope, AgentResponse, is_agent_gateway, is_some,
}
use d_hsm.Dispatch.Envelope.{command_domain, decode_envelope}
use d_hsm.Dispatch.Identity.{handle_public_identity, handle_prove_identity}
use d_hsm.Dispatch.Payload.{handle_sign_transfer}
use d_hsm.Dispatch.Faucet.{handle_sign_faucet_dispense}
use d_hsm.Dispatch.Privileged.{verify_capability}
use d_hsm.Dispatch.Mint.{handle_generate_keys}
use d_hsm.Dispatch.Treasury.{handle_configure_treasury}

abbrev pub sealed_optout_acknowledged : KeystoreBody → Bool
sealed_optout_acknowledged keystore = false

unfoldable pub anti_rollback_satisfied : Process → KeystoreBody → Bool
unfolding is_anti_rollback_configured
anti_rollback_satisfied p keystore =
    is_anti_rollback_configured p || sealed_optout_acknowledged keystore

module _ {W : Type 0} (c : Crypto) (k : Curve) (features : Features)
    (getrandom : ℕ → W → Option (List ℕ) × W) where
  abbrev pub off : Action W AgentError AgentResponse
  off = lift (failed not_configured)

  -- The match on a privileged opcode.
  unfoldable pub privileged_handler :
      AgentOpcode
      → AgentEnvelope
      → KeystoreBody
      → VerifiedCapability
      → Action W AgentError AgentResponse
  unfolding handle_generate_keys handle_configure_treasury
  privileged_handler generate_keys env keystore v =
      if features.keygen_exec then handle_generate_keys c k getrandom env keystore v else off
  privileged_handler configure_treasury env keystore v =
      if features.configure_treasury
      then lift (handle_configure_treasury c k env keystore v)
      else off
  privileged_handler _ env keystore v = off

  unfoldable pub privileged :
      AgentOpcode → AgentEnvelope → KeystoreBody → Action W AgentError AgentResponse
  unfolding verify_capability privileged_handler
  privileged op env keystore = do
    lift (ensure (is_some env.capability) capability_rejected)
    v ← lift (verify_capability c env keystore)
    privileged_handler op env keystore v

  -- The last match on the opcode.
  unfoldable pub runtime_handler :
      AgentOpcode → AgentEnvelope → KeystoreBody → Action W AgentError AgentResponse
  unfolding handle_public_identity handle_prove_identity handle_sign_transfer
      handle_sign_faucet_dispense
  runtime_handler public_identity env keystore = lift (handle_public_identity k env keystore)
  runtime_handler prove_identity env keystore =
      if features.prove_identity then lift (handle_prove_identity k env keystore) else off
  runtime_handler sign_transfer env keystore =
      if features.sign_transfer then lift (handle_sign_transfer k env keystore) else off
  runtime_handler sign_faucet_dispense env keystore =
      if features.sign_faucet then lift (handle_sign_faucet_dispense k env keystore) else off
  runtime_handler get_restore_pubkey env keystore = off
  runtime_handler _ env keystore = lift (failed malformed)

  unfoldable pub routed :
      AgentOpcode → AgentEnvelope → KeystoreBody → Action W AgentError AgentResponse
  unfolding privileged runtime_handler
  routed op env keystore =
      if is_privileged op
      then privileged op env keystore
      else lift (ensure (not (is_some env.capability)) malformed) >> runtime_handler op env keystore

  unfoldable pub dispatch_agent :
      Profile → List ℕ → KeystoreBody → Process → Action W AgentError AgentResponse
  unfolding decode_envelope bytes_eq anti_rollback_satisfied routed
  dispatch_agent profile wire keystore p = do
    lift (ensure (is_agent_gateway profile) wrong_profile)
    env ← lift (decode_envelope wire)
    lift (
        ensure
          (env.agent_version == agent_gateway_version && bytes_eq env.command_domain command_domain)
          malformed)
    op ← lift (ok_or (from_u8 env.opcode) malformed)
    lift (
        ensure (not (is_rollback_sensitive op && not (anti_rollback_satisfied p keystore)))
          not_configured)
    routed op env keystore
