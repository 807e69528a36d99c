-- ===== src/Boot/Bounded.antt =====
-- `run_boot_anti_rollback_handshake` of agent_boot_driver.rs: how many round trips it makes.
use d_hsm.Prelude.{
  ℕ, zero, suc, ◌+◌, ◌*◌, ◌≤◌, List, Option, none, some, arith, ltb, ◌==◌, Bool-cases, inl, inr,
}
use d_hsm.Prelude.Attempt.{Attempt, done, failed}
use d_hsm.Crypto.{Crypto}
use d_hsm.Keystore.Types.{KeystoreBody}
use d_hsm.Anchor.Types.{AnchorState}
use d_hsm.Boot.Process.{
  Process, issue_challenge, BootAntiRollbackOutcome, ready, boot_failed, adopt_forward_required,
  boot_reconcile_anti_rollback,
}
use d_hsm.Boot.Adopt.{AdoptForwardFail, execute_adopt_forward}
use d_hsm.Boot.Driver.{
  Platform, AnchorBootRequest, AnchorMarksRequest, LastTransport, BootDriverOutcome, Run, Step,
  finish, again, adopted, marks_leg, reconciled, answered, challenged, boot_attempt, boot_loop,
  run_boot_anti_rollback_handshake, max_boot_attempts_ceiling, no_attempt_completed,
}

-- `cost` counts the round trips: a draw adds none, a round trip one at most.
pub record Counts {W : Type 0} (platform : Platform W) (cost : W → ℕ) : Type 0 where
  pub draw : (w : W) → cost (platform.getrandom w).1 ≤ cost w
  pub trip : (r : AnchorBootRequest) (w : W) → cost (platform.anchor_round_trip r w).1 ≤ cost w + 1
  pub marks : (r : AnchorMarksRequest) (w : W) → cost (platform.marks_round_trip r w).1 ≤ cost w + 1

module _ {W : Type 0} (c : Crypto) (platform : Platform W) (cost : W → ℕ)
    (h : Counts platform cost) where
  adopted_cost :
      (st : AnchorState) (s : Run W) (r : Attempt AdoptForwardFail KeystoreBody)
      → cost (adopted c platform st s r).1.world ≤ cost s.world
  adopted_cost st s (done b) = omega arith
  adopted_cost st s (failed e) = omega arith

  marks_leg_cost :
      (st : AnchorState) (nonce : List ℕ) (body : KeystoreBody) (p : Process)
      (r : Attempt (List ℕ) (List ℕ) × W)
      → cost (marks_leg c platform st nonce body p r).1.world ≤ cost r.1
  marks_leg_cost st nonce body p (failed e, w) = omega arith
  marks_leg_cost st nonce body p (done wire, w) =
      adopted_cost st (record { body = body; process = p; world = w })
        (execute_adopt_forward c wire body st nonce)

  reconciled_cost :
      (chain : ℕ) (env : List ℕ) (body : KeystoreBody) (w : W) (o : BootAntiRollbackOutcome)
      (p : Process)
      → cost (reconciled c platform chain env body w (o, p)).1.world ≤ cost w + 1
  reconciled_cost chain env body w (ready st) p = omega arith
  reconciled_cost chain env body w (boot_failed x) p = omega arith
  reconciled_cost chain env body w (adopt_forward_required st nonce) p =
      let request : AnchorMarksRequest = record {
        chain_id = chain;
        environment_identifier = env;
        nonce = nonce;
        epoch = st.epoch;
      } in
      omega (
        arith,
        marks_leg_cost st nonce body p (platform.marks_round_trip request w),
        h.marks request w,
      )

  answered_cost :
      (chain : ℕ) (env : List ℕ) (body : KeystoreBody) (p : Process)
      (r : Attempt (List ℕ) (List ℕ) × W)
      → cost (answered c platform chain env body p r).1.world ≤ cost r.1 + 1
  answered_cost chain env body p (failed e, w) = omega arith
  answered_cost chain env body p (done wire, w) =
      reconciled_cost chain env body w (boot_reconcile_anti_rollback c wire body p).0
        (boot_reconcile_anti_rollback c wire body p).1

  challenged_cost :
      (chain : ℕ) (env : List ℕ) (s : Run W) (draw : Option (List ℕ)) (w : W)
      → cost
          (challenged c platform chain env s.body w
            (issue_challenge draw chain env s.process)).1.world
        ≤ cost w + 2
  unfolding issue_challenge
  challenged_cost chain env s none w = omega arith
  challenged_cost chain env s (some nonce) w = omega (
    arith,
    answered_cost chain env s.body (record s.process { outstanding = some _ })
        (platform.anchor_round_trip _ w),
    h.trip _ w,
  )

  attempt_cost :
      (chain : ℕ) (env : List ℕ) (s : Run W)
      → cost (boot_attempt c platform chain env s).1.world ≤ cost s.world + 2
  unfolding boot_attempt
  attempt_cost chain env s = omega (
    arith,
    challenged_cost chain env s (platform.getrandom s.world).0 (platform.getrandom s.world).1,
    h.draw s.world,
  )

  next_cost :
      (chain : ℕ) (env : List ℕ) (n : ℕ) (step : Step) (s : Run W)
      → ((l : LastTransport)
          → cost (boot_loop c platform chain env l n s).1.world ≤ cost s.world + 2 * n)
      → let r = elim step as (λ x. BootDriverOutcome × Run W) [
        | finish outcome ↦ (outcome, s)
        | again next ↦ boot_loop c platform chain env next n s
      ] in
        cost r.1.world ≤ cost s.world + 2 * n
  next_cost chain env n (finish o) s ih = omega arith
  next_cost chain env n (again l) s ih = ih l

  loop_cost :
      (chain : ℕ) (env : List ℕ) (last : LastTransport) (n : ℕ) (s : Run W)
      → cost (boot_loop c platform chain env last n s).1.world ≤ cost s.world + 2 * n
  unfolding boot_loop
  loop_cost chain env last zero s = omega arith
  loop_cost chain env last (suc n) s =
      let (step, s') = boot_attempt c platform chain env s in
      omega (
        arith,
        next_cost chain env n step s' (λ l. loop_cost chain env l n s'),
        attempt_cost chain env s,
      )

  -- Where `cost` counts the round trips, a handshake makes two for an attempt at most, and never more
  -- than 128.
  pub run_boot_anti_rollback_handshake_bounded :
      (max_attempts : ℕ) (s : Run W)
      → let r = run_boot_anti_rollback_handshake c platform max_attempts s in
        (cost r.1.world ≤ cost s.world + 2 * max_attempts) × (cost r.1.world ≤ cost s.world + 128)
  unfolding run_boot_anti_rollback_handshake
  run_boot_anti_rollback_handshake_bounded max_attempts s = elim (Bool-cases (max_attempts == 0)) [
    | inl no_attempt ↦ rw no_attempt (omega arith, omega arith)
    | inr some_attempt ↦ elim (Bool-cases (ltb max_boot_attempts_ceiling max_attempts)) [
      | inl too_many ↦ rw (some_attempt, too_many) (omega arith, omega arith)
      | inr in_range ↦
          let bound =
            loop_cost s.body.config.twod_chain_id s.body.config.environment_identifier
              no_attempt_completed max_attempts s in
          let few : max_attempts ≤ 64 = ground (arith, in_range) in
          rw (some_attempt, in_range) (omega (arith, bound), omega (arith, bound, few))
    ]
  ]
