-- ===== src/Boot/ReadyOnce.antt =====
-- `boot_reconcile_anti_rollback` of agent_boot.rs: the outcomes, and a second answer.
use d_hsm.Prelude.{ℕ, ◌<◌, ◌≡◌, refl, List, true, Option, none, some}
use d_hsm.Prelude.Attempt.{Attempt, done, failed, map_err, ◌>>=◌}
use d_hsm.Crypto.{Crypto}
use d_hsm.Keystore.Types.{KeystoreBody}
use d_hsm.Keystore.Marks.{compute_local_marks_digest}
use d_hsm.Anchor.Types.{AnchorState, AnchorError}
use d_hsm.Anchor.Response.{verify_anchor_response_bytes}
use d_hsm.Anchor.Reconcile.{
  reconcile, ReconcileDecision, fresh, adopt_forward, fail_closed, reconcile_fresh, reconcile_adopt,
}
use d_hsm.Boot.Process.{
  Process, Challenge, AntiRollbackBinding, consume_outstanding_challenge,
  verify_outstanding_response, install_anti_rollback_binding, BootAntiRollbackOutcome, ready,
  adopt_forward_required, boot_failed, decided, verified, boot_reconcile_anti_rollback, anchor,
  no_challenge,
}

-- The binding of a state.
abbrev pub binding_of : AnchorState → AntiRollbackBinding
binding_of st = record { epoch = st.epoch; active = true }

-- What an outcome says of the slot and of the anchor's state, for the process `p` that the
-- challenge was taken from.
abbrev pub Justified :
    Crypto → List ℕ → KeystoreBody → Process → BootAntiRollbackOutcome → Process → Type 0
Justified c wire body p (ready st) p' =
    (p.binding ≡ none)
    × (p'.binding ≡ some (binding_of st))
    × (st.epoch ≡ body.freshness_epoch)
    × (st.structural_version ≡ body.structural_version)
    × (st.marks_digest ≡ compute_local_marks_digest c.sha3_256 body)
    × ((ch : Challenge) × (p.outstanding ≡ some ch)
        × (verify_anchor_response_bytes c wire ch.nonce body.config ≡ done st))
Justified c wire body p (adopt_forward_required st nonce) p' =
    (p'.binding ≡ p.binding)
    × (body.freshness_epoch < st.epoch)
    × (st.structural_version ≡ body.structural_version)
    × ((ch : Challenge) × (p.outstanding ≡ some ch)
        × (nonce ≡ ch.nonce)
        × (verify_anchor_response_bytes c wire ch.nonce body.config ≡ done st))
Justified c wire body p (boot_failed r) p' = p'.binding ≡ p.binding

abbrev slots : Option Challenge → Option AntiRollbackBinding → Process
slots o b = record { outstanding = o; binding = b }

-- The outcome is justified, and the challenge is gone.
abbrev Settled :
    Crypto → List ℕ → KeystoreBody → Process → BootAntiRollbackOutcome × Process → Type 0
Settled c wire body p r = Justified c wire body p r.0 r.1 × (r.1.outstanding ≡ none)

decided-Settled :
    (c : Crypto) (wire : List ℕ) (body : KeystoreBody) (ch : Challenge)
    (b : Option AntiRollbackBinding) (st : AnchorState) (d : ReconcileDecision)
    → verify_anchor_response_bytes c wire ch.nonce body.config ≡ done st
    → reconcile body.freshness_epoch body.structural_version
        (compute_local_marks_digest c.sha3_256 body)
        st
      ≡ d
    → Settled c wire body (slots (some ch) b) (decided st ch.nonce (slots none b) d)
unfolding install_anti_rollback_binding
decided-Settled c wire body ch none st fresh v e =
    let (epoch, structural, digest) =
      (reconcile_fresh body.freshness_epoch body.structural_version
          (compute_local_marks_digest c.sha3_256 body) st).0
        e in
    ((refl, refl, epoch, structural, digest, (ch, refl, v)), refl)
decided-Settled c wire body ch (some old) st fresh v e = (refl, refl)
decided-Settled c wire body ch b st (adopt_forward n) v e =
    let (ahead, structural, same) =
      (reconcile_adopt body.freshness_epoch body.structural_version n
          (compute_local_marks_digest c.sha3_256 body) st).0
        e in
    ((refl, ahead, structural, (ch, refl, refl, v)), refl)
decided-Settled c wire body ch b st (fail_closed r) v e = (refl, refl)

verified-Settled :
    (c : Crypto) (wire : List ℕ) (body : KeystoreBody) (ch : Challenge)
    (b : Option AntiRollbackBinding) (v : Attempt AnchorError AnchorState)
    → verify_anchor_response_bytes c wire ch.nonce body.config ≡ v
    → Settled c wire body
        (slots (some ch) b)
        (verified c body (slots none b) (map_err anchor v >>= λ st. done (st, ch.nonce)))
verified-Settled c wire body ch b (failed x) e = (refl, refl)
verified-Settled c wire body ch b (done st) e = decided-Settled c wire body ch b st _ e refl

slots-Settled :
    (c : Crypto) (wire : List ℕ) (body : KeystoreBody) (o : Option Challenge)
    (b : Option AntiRollbackBinding)
    → Settled c wire body (slots o b) (boot_reconcile_anti_rollback c wire body (slots o b))
unfolding boot_reconcile_anti_rollback verify_outstanding_response consume_outstanding_challenge
slots-Settled c wire body none b = (refl, refl)
slots-Settled c wire body (some ch) b = verified-Settled c wire body ch b _ refl

unanswered :
    (c : Crypto) (wire : List ℕ) (body : KeystoreBody) (o : Option Challenge)
    (b : Option AntiRollbackBinding)
    → o ≡ none
    → boot_reconcile_anti_rollback c wire body (slots o b) ≡ (boot_failed no_challenge, slots o b)
unfolding boot_reconcile_anti_rollback verify_outstanding_response consume_outstanding_challenge
unanswered c wire body none b e = refl
unanswered c wire body (some ch) b e = cc

-- On every outcome the challenge is gone; the process is ready only for a state that answers the
-- outstanding challenge and equals the local one, with the binding newly installed; an adoption is
-- asked for only of such a state with a higher epoch; and on any outcome but ready the binding is
-- as it was.
pub boot_reconcile_anti_rollback_once :
    (c : Crypto) (wire : List ℕ) (body : KeystoreBody) (p : Process)
    → let r = boot_reconcile_anti_rollback c wire body p in
      Justified c wire body p r.0 r.1 × (r.1.outstanding ≡ none)
boot_reconcile_anti_rollback_once c wire body p = slots-Settled c wire body p.outstanding p.binding

-- A second answer to the same challenge is refused.
pub boot_reconcile_anti_rollback_replay :
    (c : Crypto) (wire wire' : List ℕ) (body body' : KeystoreBody) (p : Process)
    → let p1 = (boot_reconcile_anti_rollback c wire body p).1 in
      boot_reconcile_anti_rollback c wire' body' p1 ≡ (boot_failed no_challenge, p1)
boot_reconcile_anti_rollback_replay c wire wire' body body' p =
    let p1 = (boot_reconcile_anti_rollback c wire body p).1 in
    unanswered c wire' body' p1.outstanding p1.binding
      (boot_reconcile_anti_rollback_once c wire body p).1
