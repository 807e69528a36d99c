-- ===== src/Dispatch/Privileged.antt =====
-- What the privileged handlers of agent_dispatch.rs share: `verify_capability`, and what happens to
-- a candidate after its mutation.
use d_hsm.Prelude.{ℕ}
use d_hsm.Prelude.Attempt.{Attempt, ok_or, ◌>>=◌}
use d_hsm.Crypto.{Crypto}
use d_hsm.Keystore.Types.{KeystoreBody}
use d_hsm.Keystore.Counter.{advance_counter}
use d_hsm.Keystore.Epoch.{advance_commit_epoch, advance_treasury_config_version}
use d_hsm.Capability.Parse.{AgentError, capability_rejected}
use d_hsm.Capability.Verify.{VerifiedCapability, verify_capability_extract}
use d_hsm.Dispatch.Opcode.{
  generate_keys, commit_bump_class, configure_treasury_sub_op_bump_class, is_structural,
}
use d_hsm.Dispatch.Types.{AgentEnvelope, or_seal_failed, or_cap_exceeded, audited}

unfoldable pub verify_capability :
    Crypto → AgentEnvelope → KeystoreBody → Attempt AgentError VerifiedCapability
unfolding verify_capability_extract
verify_capability c env keystore = do
  cap ← ok_or env.capability capability_rejected
  verify_capability_extract c cap env.opcode env.request_id keystore.config keystore.counters

-- `handle_generate_keys`, after the keys are on the candidate.
unfoldable pub finish_generate :
    AgentEnvelope → VerifiedCapability → KeystoreBody → Attempt AgentError KeystoreBody
unfolding advance_counter advance_commit_epoch audited
finish_generate env v minted = do
  counted ←
      or_cap_exceeded (advance_counter minted v.authority v.scope_class v.scope_target v.counter)
  bumped ←
      or_seal_failed
        (advance_commit_epoch counted (is_structural (commit_bump_class generate_keys)))
  audited env v bumped

-- `handle_configure_treasury`, after the mutation.
unfoldable pub finish_configure :
    AgentEnvelope → VerifiedCapability → ℕ → KeystoreBody → Attempt AgentError KeystoreBody
unfolding advance_counter advance_treasury_config_version advance_commit_epoch audited
finish_configure env v sub_op mutated = do
  counted ←
      or_cap_exceeded (advance_counter mutated v.authority v.scope_class v.scope_target v.counter)
  versioned ← or_seal_failed (advance_treasury_config_version counted)
  bumped ←
      or_seal_failed (
        advance_commit_epoch versioned
          (is_structural (configure_treasury_sub_op_bump_class sub_op)))
  audited env v bumped
