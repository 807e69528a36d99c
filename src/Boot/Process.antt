-- ===== src/Boot/Process.antt =====
-- agent_challenge.rs, `install_anti_rollback_binding` and its neighbours in agent_dispatch.rs,
-- and `boot_reconcile_anti_rollback` of agent_boot.rs. `getrandom` is the argument `draw`:
-- what the call returned.
use d_hsm.Prelude.{ℕ, List, Bool, true, false, Option, none, some, if◌then◌else◌}
use d_hsm.Prelude.Attempt.{Attempt, done, failed, map_err, ◌>>=◌}
use d_hsm.Crypto.{Crypto}
use d_hsm.Keystore.Types.{KeystoreBody, KeystoreConfig}
use d_hsm.Keystore.Marks.{compute_local_marks_digest}
use d_hsm.Anchor.Types.{AnchorState, AnchorError}
use d_hsm.Anchor.Types
use d_hsm.Anchor.Response.{verify_anchor_response_bytes, anchor_handshake_report_data}
use d_hsm.Anchor.Reconcile.{
  reconcile, ReconcileDecision, fresh, adopt_forward, fail_closed, FailReason,
}
use d_hsm.Anchor.Reconcile

pub data ChallengeError : Type 0 where
  csprng : ChallengeError

pub data ChallengeVerifyError : Type 0 where
  no_outstanding_challenge : ChallengeVerifyError
  anchor : AnchorError → ChallengeVerifyError

pub record Challenge : Type 0 where
  pub nonce : List ℕ
  pub chain_id : ℕ
  pub environment_identifier : List ℕ

pub record AntiRollbackBinding : Type 0 where
  pub epoch : ℕ
  pub active : Bool

-- `OUTSTANDING_CHALLENGE` and `ANTI_ROLLBACK_BINDING`.
pub record Process : Type 0 where
  pub outstanding : Option Challenge
  pub binding : Option AntiRollbackBinding

unfoldable pub report_data : Crypto → Challenge → List ℕ
unfolding anchor_handshake_report_data
report_data c ch = anchor_handshake_report_data c ch.chain_id ch.environment_identifier ch.nonce

unfoldable pub issue_challenge :
    Option (List ℕ) → ℕ → List ℕ → Process → Attempt ChallengeError Challenge × Process
issue_challenge none chain_id environment_identifier p = (failed csprng, p)
issue_challenge (some nonce) chain_id environment_identifier p =
    let challenge : Challenge = record {
      nonce = nonce;
      chain_id = chain_id;
      environment_identifier = environment_identifier;
    } in
    (done challenge, record p { outstanding = some challenge })

unfoldable pub consume_outstanding_challenge : Process → Option Challenge × Process
consume_outstanding_challenge p = (p.outstanding, record p { outstanding = none })

abbrev pub verify_taken :
    Crypto
    → List ℕ
    → KeystoreConfig
    → Option Challenge
    → Attempt ChallengeVerifyError (AnchorState × List ℕ)
verify_taken c wire config none = failed no_outstanding_challenge
verify_taken c wire config (some challenge) =
    map_err anchor (verify_anchor_response_bytes c wire challenge.nonce config) >>= λ st.
    done (st, challenge.nonce)

unfoldable pub verify_outstanding_response :
    Crypto
    → List ℕ
    → KeystoreConfig
    → Process
    → Attempt ChallengeVerifyError (AnchorState × List ℕ) × Process
unfolding consume_outstanding_challenge verify_anchor_response_bytes
verify_outstanding_response c wire config p =
    let (taken, p1) = consume_outstanding_challenge p in (verify_taken c wire config taken, p1)

unfoldable pub has_outstanding_challenge : Process → Bool
has_outstanding_challenge p = elim p.outstanding [ none ↦ false | some c ↦ true ]

abbrev install_over : AntiRollbackBinding → Option AntiRollbackBinding → Process → Bool × Process
install_over b none p = (true, record p { binding = some b })
install_over b (some old) p = (false, p)

unfoldable pub install_anti_rollback_binding : AntiRollbackBinding → Process → Bool × Process
install_anti_rollback_binding b p = if b.active then install_over b p.binding p else (false, p)

unfoldable pub is_anti_rollback_configured : Process → Bool
is_anti_rollback_configured p = elim p.binding [ none ↦ false | some b ↦ b.active ]

pub data BootFailReason : Type 0 where
  no_challenge verify_malformed verify_signature_invalid verify_scope_mismatch : BootFailReason
  verify_nonce_mismatch anchor_behind structural_gap inconsistent binding_install : BootFailReason

pub data BootAntiRollbackOutcome : Type 0 where
  ready : AnchorState → BootAntiRollbackOutcome
  adopt_forward_required : AnchorState → List ℕ → BootAntiRollbackOutcome
  boot_failed : BootFailReason → BootAntiRollbackOutcome

abbrev pub map_anchor_error : AnchorError → BootFailReason
map_anchor_error Types.malformed = verify_malformed
map_anchor_error Types.signature_invalid = verify_signature_invalid
map_anchor_error Types.scope_mismatch = verify_scope_mismatch
map_anchor_error Types.nonce_mismatch = verify_nonce_mismatch

abbrev pub map_fail_reason : FailReason → BootFailReason
map_fail_reason Reconcile.anchor_behind = anchor_behind
map_fail_reason Reconcile.structural_gap = structural_gap
map_fail_reason Reconcile.inconsistent = inconsistent

abbrev pub installed : AnchorState → Bool × Process → BootAntiRollbackOutcome × Process
installed st (true, p) = (ready st, p)
installed st (false, p) = (boot_failed binding_install, p)

-- The match on the decision.
abbrev pub decided :
    AnchorState → List ℕ → Process → ReconcileDecision → BootAntiRollbackOutcome × Process
decided st nonce p fresh =
    installed st (install_anti_rollback_binding (record { epoch = st.epoch; active = true }) p)
decided st nonce p (adopt_forward n) = (adopt_forward_required st nonce, p)
decided st nonce p (fail_closed r) = (boot_failed (map_fail_reason r), p)

-- The match on the verified response.
abbrev pub verified :
    Crypto
    → KeystoreBody
    → Process
    → Attempt ChallengeVerifyError (AnchorState × List ℕ)
    → BootAntiRollbackOutcome × Process
verified c body p (failed no_outstanding_challenge) = (boot_failed no_challenge, p)
verified c body p (failed (anchor e)) = (boot_failed (map_anchor_error e), p)
verified c body p (done (st, nonce)) = decided st nonce p (
    reconcile body.freshness_epoch body.structural_version
      (compute_local_marks_digest c.sha3_256 body) st)

unfoldable pub boot_reconcile_anti_rollback :
    Crypto → List ℕ → KeystoreBody → Process → BootAntiRollbackOutcome × Process
unfolding verify_outstanding_response install_anti_rollback_binding reconcile
    compute_local_marks_digest
boot_reconcile_anti_rollback c wire body p =
    let (r, p1) = verify_outstanding_response c wire body.config p in verified c body p1 r
