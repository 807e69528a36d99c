-- ===== src/Dispatch/Types.antt =====
-- The data of agent_dispatch.rs, and steps that its handlers share.
use d_hsm.Prelude.{ℕ, suc, List, Bool, true, false, Option, none, some}
use d_hsm.Prelude.Attempt.{Attempt, done, failed}
use d_hsm.Cbor.Value.{Entries, end, entry}
use d_hsm.Keystore.Types.{
  KeystoreBody, KeyPurpose, agent_faucet_treasury_k1, agent_transfer_k1, Result, ok, err,
  capacity_exceeded, AuditAppend,
}
use d_hsm.Keystore.Audit.{record_audit}
use d_hsm.Capability.Parse.{AgentError, cap_exceeded, seal_failed}
use d_hsm.Capability.Verify.{VerifiedCapability}
use d_hsm.Signer.Transfer.{SignedTransfer}
use d_hsm.Signer.Identity.{PublicIdentity, IdentityProof}
use d_hsm.Signer.Keygen.{GeneratedKey}

-- The preview features of the build.
pub record Features : Type 0 where
  pub keygen_exec : Bool
  pub configure_treasury : Bool
  pub prove_identity : Bool
  pub sign_transfer : Bool
  pub sign_faucet : Bool

pub data Profile : Type 0 where
  producer agent_gateway : Profile

pub record AgentEnvelope : Type 0 where
  pub agent_version : ℕ
  pub opcode : ℕ
  pub command_domain : List ℕ
  pub request_id : List ℕ
  pub capability : Option Entries
  pub key_ref : Option (List ℕ)
  pub payload : Option Entries

pub data AgentResponse : Type 0 where
  public_identity : PublicIdentity → AgentResponse
  prove_identity : IdentityProof → AgentResponse
  sign_transfer : SignedTransfer → AgentResponse
  generate_keys : List GeneratedKey → KeystoreBody → List ℕ → AgentResponse
  sign_faucet_dispense : SignedTransfer → KeystoreBody → List ℕ → AgentResponse
  configure_treasury : KeystoreBody → List ℕ → AgentResponse

abbrev pub is_agent_gateway : Profile → Bool
is_agent_gateway producer = false
is_agent_gateway agent_gateway = true

abbrev pub is_some {ℓ} : {A : Type ℓ} → Option A → Bool
is_some none = false
is_some (some a) = true

-- `payload.len()`.
abbrev pub entry_count : Entries → ℕ
entry_count end = 0
entry_count (entry k v es) = suc (entry_count es)

abbrev pub is_transfer : KeyPurpose → Bool
is_transfer agent_transfer_k1 = true
is_transfer agent_faucet_treasury_k1 = false

-- `.map_err(|_| AgentError::SealFailed)`.
abbrev pub or_seal_failed {ℓ} : {A : Type ℓ} → Result A → Attempt AgentError A
or_seal_failed (ok a) = done a
or_seal_failed (err e) = failed seal_failed

-- The errors of `advance_counter`: a full table, or anything else.
abbrev pub or_cap_exceeded {ℓ} : {A : Type ℓ} → Result A → Attempt AgentError A
or_cap_exceeded (ok a) = done a
or_cap_exceeded (err capacity_exceeded) = failed cap_exceeded
or_cap_exceeded (err _) = failed seal_failed

-- What the handlers record of a privileged command.
abbrev pub audit_append : AgentEnvelope → VerifiedCapability → KeystoreBody → AuditAppend
audit_append env v candidate = record {
  op = env.opcode;
  authority = v.authority;
  counter = v.counter;
  config_version = candidate.config.monotonic_treasury_config_version;
  scope_class = v.scope_class;
  scope_target = v.scope_target;
  request_id = env.request_id;
}

unfoldable pub audited :
    AgentEnvelope → VerifiedCapability → KeystoreBody → Attempt AgentError KeystoreBody
unfolding record_audit
audited env v candidate = or_seal_failed (record_audit candidate (audit_append env v candidate))
