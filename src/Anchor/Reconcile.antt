-- ===== src/Anchor/Reconcile.antt =====
-- `reconcile` of agent_anchor.rs.
use d_hsm.Prelude.{ℕ, ◌<◌, ◌≡◌, subst, ◌↔◌, List, true, ◌&&◌, arith, ltb, ◌==◌, if◌then◌else◌}
use d_hsm.Prelude.Bytes.{bytes_eq, bytes_eq_sound, bytes_eq_refl}
use d_hsm.Anchor.Types.{AnchorState}

pub data FailReason : Type 0 where
  anchor_behind structural_gap inconsistent : FailReason

pub data ReconcileDecision : Type 0 where
  fresh : ReconcileDecision
  adopt_forward : ℕ → ReconcileDecision
  fail_closed : FailReason → ReconcileDecision

unfoldable pub reconcile : ℕ → ℕ → List ℕ → AnchorState → ReconcileDecision
unfolding bytes_eq
reconcile local_epoch local_structural_version local_marks_digest anchor =
    if ltb anchor.epoch local_epoch
    then fail_closed anchor_behind
    else if anchor.epoch == local_epoch
    then if anchor.structural_version == local_structural_version
        && bytes_eq anchor.marks_digest local_marks_digest
      then fresh
      else fail_closed inconsistent
    else if anchor.structural_version == local_structural_version
    then adopt_forward anchor.epoch
    else fail_closed structural_gap

-- The state is fresh exactly when the anchor's epoch, structural version and marks digest are the
-- local ones.
pub reconcile_fresh :
    (epoch structural : ℕ) (digest : List ℕ) (a : AnchorState)
    → (reconcile epoch structural digest a ≡ fresh)
      ↔ ((a.epoch ≡ epoch) × (a.structural_version ≡ structural) × (a.marks_digest ≡ digest))
unfolding reconcile
reconcile_fresh epoch structural digest a = (
  λ h. ground (arith, h, bytes_eq_sound a.marks_digest digest),
  λ (e, s, d).
      let same_digest : bytes_eq a.marks_digest digest ≡ true =
        subst (λ z. bytes_eq a.marks_digest z ≡ true) d (bytes_eq_refl a.marks_digest) in
      ground (arith, e, s, same_digest),
)

-- The anchor's state is adopted exactly when its epoch is ahead and its structural version is the
-- local one, and the epoch adopted is the anchor's.
pub reconcile_adopt :
    (epoch structural n : ℕ) (digest : List ℕ) (a : AnchorState)
    → (reconcile epoch structural digest a ≡ adopt_forward n)
      ↔ ((epoch < a.epoch) × (a.structural_version ≡ structural) × (n ≡ a.epoch))
unfolding reconcile
reconcile_adopt epoch structural n digest a =
    (λ h. ground (arith, h), λ (e, s, same). ground (arith, e, s, same))
