-- ===== src/Dispatch/Handled/Tail.antt =====
-- The tails of the privileged handlers of agent_dispatch.rs, on a candidate.
use d_hsm.Prelude.{ℕ, ◌≡◌, true, arith}
use d_hsm.Prelude.Attempt.{done, >>=-eq-done}
use d_hsm.Keystore.Types.{KeystoreBody, Result, ok, err}
use d_hsm.Keystore.Counter.{advance_counter}
use d_hsm.Keystore.Epoch.{advance_commit_epoch, advance_treasury_config_version}
use d_hsm.Keystore.Audit.{record_audit}
use d_hsm.Keystore.Grows.{
  Grows, Grows-trans, advance_counter-Grows, advance_commit_epoch-Grows,
  advance_treasury_config_version-Grows, record_audit-Grows,
}
use d_hsm.Capability.Verify.{VerifiedCapability}
use d_hsm.Dispatch.Types.{AgentEnvelope, or_seal_failed, or_cap_exceeded, audited, audit_append}
use d_hsm.Dispatch.Privileged.{finish_generate, finish_configure}

pub or_seal_failed-done {ℓ} :
    {A : Type ℓ} (r : Result A) {a : A} → or_seal_failed r ≡ done a → r ≡ ok a
or_seal_failed-done (ok a) h = cc
or_seal_failed-done (err e) h = cc

pub or_cap_exceeded-done {ℓ} :
    {A : Type ℓ} (r : Result A) {a : A} → or_cap_exceeded r ≡ done a → r ≡ ok a
or_cap_exceeded-done (ok a) h = cc
or_cap_exceeded-done (err e) h = ground (arith, h)

pub audited-Grows :
    (env : AgentEnvelope) (v : VerifiedCapability) (x y : KeystoreBody)
    → audited env v x ≡ done y
    → Grows 0 x y
unfolding audited
audited-Grows env v x y h =
    record_audit-Grows x y (audit_append env v x)
      (or_seal_failed-done (record_audit x (audit_append env v x)) h)

-- An accepted counter, a structural commit and an audit record.
module _ (env : AgentEnvelope) (v : VerifiedCapability) where
  counted-Grows :
      (x y : KeystoreBody)
      → or_cap_exceeded (advance_counter x v.authority v.scope_class v.scope_target v.counter)
        ≡ done y
      → Grows 0 x y
  counted-Grows x y h =
      advance_counter-Grows x y v.authority v.scope_class v.scope_target v.counter (
        or_cap_exceeded-done (advance_counter x v.authority v.scope_class v.scope_target v.counter)
          h)

  pub bumped-Grows :
      (x y : KeystoreBody) → or_seal_failed (advance_commit_epoch x true) ≡ done y → Grows 1 x y
  bumped-Grows x y h =
      advance_commit_epoch-Grows x y true (or_seal_failed-done (advance_commit_epoch x true) h)

  pub finish_generate-Grows : (x y : KeystoreBody) → finish_generate env v x ≡ done y → Grows 1 x y
  unfolding finish_generate
  finish_generate-Grows x y h =
      let (counted, e0, h0) =
        >>=-eq-done
          (or_cap_exceeded (advance_counter x v.authority v.scope_class v.scope_target v.counter)) _
          h in
      let (bumped, e1, h1) =
        >>=-eq-done (or_seal_failed (advance_commit_epoch counted true)) (audited env v) h0 in
      Grows-trans 0 1 x counted y (counted-Grows x counted e0) (
        Grows-trans 1 0 counted bumped y (bumped-Grows counted bumped e1)
          (audited-Grows env v bumped y h1))

  pub finish_configure-Grows :
      (sub_op : ℕ) (x y : KeystoreBody) → finish_configure env v sub_op x ≡ done y → Grows 1 x y
  unfolding finish_configure
  finish_configure-Grows sub_op x y h =
      let (counted, e0, h0) =
        >>=-eq-done
          (or_cap_exceeded (advance_counter x v.authority v.scope_class v.scope_target v.counter)) _
          h in
      let (versioned, e1, h1) =
        >>=-eq-done (or_seal_failed (advance_treasury_config_version counted)) _ h0 in
      let (bumped, e2, h2) =
        >>=-eq-done (or_seal_failed (advance_commit_epoch versioned true)) (audited env v) h1 in
      let version =
        advance_treasury_config_version-Grows counted versioned
          (or_seal_failed-done (advance_treasury_config_version counted) e1) in
      Grows-trans 0 1 x counted y (counted-Grows x counted e0) (
        Grows-trans 0 1 counted versioned y version (
          Grows-trans 1 0 versioned bumped y (bumped-Grows versioned bumped e2)
            (audited-Grows env v bumped y h2)))
