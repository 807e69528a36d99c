-- ===== src/Boot/Driver.antt =====
-- `run_boot_anti_rollback_handshake` and `decide_serve` of agent_boot_driver.rs. The transport and
-- `getrandom` belong to a world `W` that every call of them moves on; the texts of the failures
-- are the constructors of `LastTransport` and `Unstartable`.
use d_hsm.Prelude.{ℕ, zero, suc, List, Bool, not, ◌&&◌, ltb, ◌==◌, Option, if◌then◌else◌}
use d_hsm.Prelude.Attempt.{Attempt, done, failed}
use d_hsm.Crypto.{Crypto}
use d_hsm.Keystore.Types.{KeystoreBody}
use d_hsm.Anchor.Types.{AnchorState}
use d_hsm.Boot.Process.{
  Process, Challenge, ChallengeError, report_data, issue_challenge, consume_outstanding_challenge,
  is_anti_rollback_configured, BootFailReason, BootAntiRollbackOutcome, ready, boot_failed,
  adopt_forward_required, boot_reconcile_anti_rollback,
}
use d_hsm.Boot.Adopt.{AdoptForwardFail, execute_adopt_forward}

pub record AnchorBootRequest : Type 0 where
  pub chain_id : ℕ
  pub environment_identifier : List ℕ
  pub nonce : List ℕ
  pub report_data : List ℕ

-- `AnchorMarksRequest` of agent_boot_relay.rs.
pub record AnchorMarksRequest : Type 0 where
  pub chain_id : ℕ
  pub environment_identifier : List ℕ
  pub nonce : List ℕ
  pub epoch : ℕ

-- `AnchorBootTransport` and the generator; an error is the transport's text.
pub record Platform (W : Type 0) : Type 0 where
  pub getrandom : W → Option (List ℕ) × W
  pub anchor_round_trip : AnchorBootRequest → W → Attempt (List ℕ) (List ℕ) × W
  pub marks_round_trip : AnchorMarksRequest → W → Attempt (List ℕ) (List ℕ) × W

pub data LastTransport : Type 0 where
  no_attempt_completed adopted_forward : LastTransport
  transport : List ℕ → LastTransport

pub data Unstartable : Type 0 where
  no_attempts too_many_attempts no_csprng : Unstartable

pub data BootDriverFail : Type 0 where
  reconcile_failed : BootFailReason → BootDriverFail
  adopt_forward_failed : AnchorState → AdoptForwardFail → BootDriverFail
  retries_exhausted : LastTransport → BootDriverFail
  unstartable : Unstartable → BootDriverFail

pub data BootDriverOutcome : Type 0 where
  driver_ready : AnchorState → BootDriverOutcome
  driver_failed : BootDriverFail → BootDriverOutcome

-- What the loop changes: the body, the process's slots and the world.
pub record Run (W : Type 0) : Type 0 where
  pub body : KeystoreBody
  pub process : Process
  pub world : W

abbrev pub max_boot_attempts_ceiling : ℕ
max_boot_attempts_ceiling = 64

-- How an attempt ends: with an outcome, or with `continue`.
pub data Step : Type 0 where
  finish : BootDriverOutcome → Step
  again : LastTransport → Step

module _ {W : Type 0} (c : Crypto) (platform : Platform W) where
  abbrev pub adopted : AnchorState → Run W → Attempt AdoptForwardFail KeystoreBody → Step × Run W
  adopted st s (done body) = (again adopted_forward, record s { body = body })
  adopted st s (failed cause) = (finish (driver_failed (adopt_forward_failed st cause)), s)

  abbrev pub marks_leg :
      AnchorState → List ℕ → KeystoreBody → Process → Attempt (List ℕ) (List ℕ) × W → Step × Run W
  marks_leg st nonce body p (failed e, w) =
      (again (transport e), record { body = body; process = p; world = w })
  marks_leg st nonce body p (done wire, w) =
      adopted st (record { body = body; process = p; world = w })
        (execute_adopt_forward c wire body st nonce)

  -- The match on the reconciled outcome.
  abbrev pub reconciled :
      ℕ → List ℕ → KeystoreBody → W → BootAntiRollbackOutcome × Process → Step × Run W
  reconciled chain env body w (ready st, p) =
      (finish (driver_ready st), record { body = body; process = p; world = w })
  reconciled chain env body w (boot_failed reason, p) = (
    finish (driver_failed (reconcile_failed reason)),
    record { body = body; process = p; world = w },
  )
  reconciled chain env body w (adopt_forward_required st nonce, p) = marks_leg st nonce body p (
      platform.marks_round_trip
        (record { chain_id = chain; environment_identifier = env; nonce = nonce; epoch = st.epoch })
        w)

  abbrev pub answered :
      ℕ → List ℕ → KeystoreBody → Process → Attempt (List ℕ) (List ℕ) × W → Step × Run W
  answered chain env body p (failed e, w) = (
    again (transport e),
    record { body = body; process = (consume_outstanding_challenge p).1; world = w },
  )
  answered chain env body p (done wire, w) =
      reconciled chain env body w (boot_reconcile_anti_rollback c wire body p)

  abbrev pub challenged :
      ℕ → List ℕ → KeystoreBody → W → Attempt ChallengeError Challenge × Process → Step × Run W
  challenged chain env body w (failed e, p) = (
    finish (driver_failed (unstartable no_csprng)),
    record { body = body; process = p; world = w },
  )
  challenged chain env body w (done challenge, p) = answered chain env body p (
      platform.anchor_round_trip
        (record {
          chain_id = chain;
          environment_identifier = env;
          nonce = challenge.nonce;
          report_data = report_data c challenge;
        })
        w)

  -- The body of the loop.
  unfoldable pub boot_attempt : ℕ → List ℕ → Run W → Step × Run W
  unfolding issue_challenge consume_outstanding_challenge report_data boot_reconcile_anti_rollback
      execute_adopt_forward
  boot_attempt chain env s =
      let (draw, w) = platform.getrandom s.world in
      challenged chain env s.body w (issue_challenge draw chain env s.process)

  -- The loop: `n` attempts are left.
  unfoldable pub boot_loop : ℕ → List ℕ → LastTransport → ℕ → Run W → BootDriverOutcome × Run W
  unfolding boot_attempt
  boot_loop chain env last zero s = (driver_failed (retries_exhausted last), s)
  boot_loop chain env last (suc n) s =
      let (step, s') = boot_attempt chain env s in
      elim step [ finish outcome ↦ (outcome, s') | again next ↦ boot_loop chain env next n s' ]

  unfoldable pub run_boot_anti_rollback_handshake : ℕ → Run W → BootDriverOutcome × Run W
  unfolding boot_loop
  run_boot_anti_rollback_handshake max_attempts s =
      if max_attempts == 0
      then (driver_failed (unstartable no_attempts), s)
      else if ltb max_boot_attempts_ceiling max_attempts
      then (driver_failed (unstartable too_many_attempts), s)
      else boot_loop s.body.config.twod_chain_id s.body.config.environment_identifier
          no_attempt_completed max_attempts s

-- `ProtocolError::PqSigningUnavailable`, by what it says.
pub data ServeRefusal : Type 0 where
  binding_not_installed not_ready : ServeRefusal

abbrev pub serve_gate : Bool → Bool → Attempt ServeRefusal (Unit {0})
serve_gate require_real configured =
    if require_real && not configured then failed binding_not_installed else done tt

abbrev pub gated : AnchorState → Attempt ServeRefusal (Unit {0}) → Attempt ServeRefusal AnchorState
gated st (done u) = done st
gated st (failed e) = failed e

unfoldable pub decide_serve : BootDriverOutcome → Bool → Process → Attempt ServeRefusal AnchorState
unfolding is_anti_rollback_configured
decide_serve (driver_ready st) require_real p =
    gated st (serve_gate require_real (is_anti_rollback_configured p))
decide_serve (driver_failed e) require_real p = failed not_ready
