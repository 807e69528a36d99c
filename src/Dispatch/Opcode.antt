-- ===== src/Dispatch/Opcode.antt =====
-- `AgentOpcode` and `CommitBumpClass` of agent_dispatch.rs.
use d_hsm.Prelude.{ℕ, Bool, true, false, Option, none, some, ◌==◌, if◌then◌else◌}

pub data AgentOpcode : Type 0 where
  generate_keys public_identity prove_identity sign_transfer sign_faucet_dispense : AgentOpcode
  configure_treasury export_backup restore_backup get_restore_pubkey : AgentOpcode

abbrev pub from_u8 : ℕ → Option AgentOpcode
from_u8 b =
    if b == 1
    then some generate_keys
    else if b == 2
    then some public_identity
    else if b == 3
    then some prove_identity
    else if b == 4
    then some sign_transfer
    else if b == 5
    then some sign_faucet_dispense
    else if b == 6
    then some configure_treasury
    else if b == 7
    then some export_backup
    else if b == 8
    then some restore_backup
    else if b == 9
    then some get_restore_pubkey
    else none

abbrev pub is_privileged : AgentOpcode → Bool
is_privileged generate_keys = true
is_privileged configure_treasury = true
is_privileged export_backup = true
is_privileged restore_backup = true
is_privileged _ = false

abbrev pub is_rollback_sensitive : AgentOpcode → Bool
is_rollback_sensitive generate_keys = true
is_rollback_sensitive sign_faucet_dispense = true
is_rollback_sensitive configure_treasury = true
is_rollback_sensitive export_backup = true
is_rollback_sensitive restore_backup = true
is_rollback_sensitive sign_transfer = false
is_rollback_sensitive public_identity = false
is_rollback_sensitive prove_identity = false
is_rollback_sensitive get_restore_pubkey = false

pub data CommitBumpClass : Type 0 where
  structural epoch_only not_committed : CommitBumpClass

abbrev pub commit_bump_class : AgentOpcode → CommitBumpClass
commit_bump_class generate_keys = structural
commit_bump_class configure_treasury = structural
commit_bump_class export_backup = structural
commit_bump_class restore_backup = structural
commit_bump_class sign_faucet_dispense = epoch_only
commit_bump_class sign_transfer = not_committed
commit_bump_class public_identity = not_committed
commit_bump_class prove_identity = not_committed
commit_bump_class get_restore_pubkey = not_committed

-- Every sub-operation is structural.
abbrev pub configure_treasury_sub_op_bump_class : ℕ → CommitBumpClass
configure_treasury_sub_op_bump_class sub_op = structural

-- `matches!(class, CommitBumpClass::Structural)`.
abbrev pub is_structural : CommitBumpClass → Bool
is_structural structural = true
is_structural epoch_only = false
is_structural not_committed = false
