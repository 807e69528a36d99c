-- ===== src/Boot/Handshake.antt =====
-- `run_boot_anti_rollback_handshake` and `decide_serve` of agent_boot_driver.rs: how the driver ends.
use d_hsm.Prelude.{
  ℕ, zero, suc, ◌≤◌, ◌<◌, ◌≡◌, refl, sym, ◌∙◌, subst, List, true, Option, none, some, arith, ltb,
  ◌==◌, Bool-cases, inl, inr, ◌↔◌,
}
use d_hsm.Prelude.Attempt.{
  Attempt, done, failed, ok_or, map_err, >>=-eq-done, ensure-done, done_inv,
}
use d_hsm.Crypto.{Crypto}
use d_hsm.Envelope.Marks.{DecodedMarks, strict_decode_marks_payload}
use d_hsm.Keystore.Types.{KeystoreBody, max_counter_entries}
use d_hsm.Keystore.Validate.{validate}
use d_hsm.Keystore.Marks.{seeded, seed_marks_forward, compute_local_marks_digest}
use d_hsm.Anchor.Types.{AnchorState}
use d_hsm.Anchor.Marks.{verify_marks_response_bytes}
use d_hsm.Boot.Process.{
  Process, Challenge, AntiRollbackBinding, issue_challenge, consume_outstanding_challenge,
  BootAntiRollbackOutcome, ready, boot_failed, adopt_forward_required, boot_reconcile_anti_rollback,
  is_anti_rollback_configured,
}
use d_hsm.Boot.Adopt.{
  AdoptForwardFail, execute_adopt_forward, marks_dominate_local, seeded_ok, marks_verify,
  marks_decode, hash_mismatch, belt_regression,
}
use d_hsm.Boot.ReadyOnce.{binding_of, Justified, boot_reconcile_anti_rollback_once}
use d_hsm.Boot.Driver.{
  Platform, LastTransport, BootDriverOutcome, driver_ready, driver_failed, Run, Step, finish, again,
  adopted, marks_leg, reconciled, answered, challenged, boot_attempt, boot_loop,
  run_boot_anti_rollback_handshake, max_boot_attempts_ceiling, decide_serve,
}

-- What an adoption leaves alone, and the epoch does not go back.
pub record KeptBody (a b : KeystoreBody) : Type 0 where
  pub config : b.config ≡ a.config
  pub entries : b.entries ≡ a.entries
  pub audit : b.audit ≡ a.audit
  pub structural : b.structural_version ≡ a.structural_version
  pub forward : a.freshness_epoch ≤ b.freshness_epoch

KeptBody-refl : (a : KeystoreBody) → KeptBody a a
KeptBody-refl a = record {
  config = refl;
  entries = refl;
  audit = refl;
  structural = refl;
  forward = omega arith;
}

KeptBody-trans : (a b d : KeystoreBody) → KeptBody a b → KeptBody b d → KeptBody a d
KeptBody-trans a b d h k = record {
  config = k.config ∙ h.config;
  entries = k.entries ∙ h.entries;
  audit = k.audit ∙ h.audit;
  structural = k.structural ∙ h.structural;
  forward = omega (arith, h.forward, k.forward);
}

-- An adopted body is the local one with marks in place, at the state's epoch.
adopted_is_seeded :
    (c : Crypto) (wire : List ℕ) (body : KeystoreBody) (st : AnchorState) (nonce : List ℕ)
    (body' : KeystoreBody)
    → execute_adopt_forward c wire body st nonce ≡ done body'
    → (m : DecodedMarks) × (seeded body m st.epoch ≡ body')
unfolding execute_adopt_forward seed_marks_forward
adopted_is_seeded c wire body st nonce body' h =
    let (payload, e0, h0) =
      >>=-eq-done
        (map_err marks_verify (verify_marks_response_bytes c wire nonce st.epoch body.config)) _
        h in
    let (m, e1, h1) =
      >>=-eq-done (ok_or (strict_decode_marks_payload payload max_counter_entries) marks_decode) _
        h0 in
    let (u, e2, h2) = >>=-eq-done (seeded_ok (validate (seeded body m st.epoch))) _ h1 in
    let (e3, h3) =
      ensure-done
        (c.ct_eq (compute_local_marks_digest c.sha3_256 (seeded body m st.epoch)) st.marks_digest)
        hash_mismatch _ h2 in
    let (e4, h4) = ensure-done (marks_dominate_local m body) belt_regression _ h3 in
    (m, done_inv h4)

seeded-KeptBody :
    (body : KeystoreBody) (m : DecodedMarks) (epoch : ℕ)
    → body.freshness_epoch ≤ epoch
    → KeptBody body (seeded body m epoch)
seeded-KeptBody body m epoch h = record {
  config = refl;
  entries = refl;
  audit = refl;
  structural = refl;
  forward = h;
}

module _ {W : Type 0} (c : Crypto) (platform : Platform W) where
  -- The run that ended in `driver_ready st` or in a failure, or goes on.
  abbrev pub Ended : KeystoreBody → Option AntiRollbackBinding → BootDriverOutcome → Run W → Type 0
  Ended body b (driver_ready st) s =
      (b ≡ none)
      × (s.process.binding ≡ some (binding_of st))
      × (s.process.outstanding ≡ none)
      × (st.epoch ≡ s.body.freshness_epoch)
      × (st.structural_version ≡ s.body.structural_version)
      × (st.marks_digest ≡ compute_local_marks_digest c.sha3_256 s.body)
      × KeptBody body s.body
  Ended body b (driver_failed f) s = (s.process.binding ≡ b) × KeptBody body s.body

  abbrev Stepped : KeystoreBody → Option AntiRollbackBinding → Step × Run W → Type 0
  Stepped body b (finish o, s) = Ended body b o s
  Stepped body b (again l, s) = (s.process.binding ≡ b) × KeptBody body s.body

  adopted-Stepped :
      (st : AnchorState) (s : Run W) (wire nonce : List ℕ)
      (r : Attempt AdoptForwardFail KeystoreBody)
      → s.body.freshness_epoch < st.epoch
      → execute_adopt_forward c wire s.body st nonce ≡ r
      → Stepped s.body s.process.binding (adopted c platform st s r)
  adopted-Stepped st s wire nonce (failed x) lt e = (refl, KeptBody-refl s.body)
  adopted-Stepped st s wire nonce (done body') lt e =
      let (m, same) = adopted_is_seeded c wire s.body st nonce body' e in
      (refl, subst (KeptBody s.body) same (seeded-KeptBody s.body m st.epoch (omega (arith, lt))))

  marks_leg-Stepped :
      (st : AnchorState) (nonce : List ℕ) (body : KeystoreBody) (p : Process)
      (r : Attempt (List ℕ) (List ℕ) × W)
      → body.freshness_epoch < st.epoch
      → Stepped body p.binding (marks_leg c platform st nonce body p r)
  marks_leg-Stepped st nonce body p (failed x, w) lt = (refl, KeptBody-refl body)
  marks_leg-Stepped st nonce body p (done wire, w) lt =
      adopted-Stepped st (record { body = body; process = p; world = w }) wire nonce _ lt refl

  reconciled-Stepped :
      (chain : ℕ) (env wire : List ℕ) (body : KeystoreBody) (w : W) (p : Process)
      (o : BootAntiRollbackOutcome) (p' : Process)
      → Justified c wire body p o p'
      → p'.outstanding ≡ none
      → Stepped body p.binding (reconciled c platform chain env body w (o, p'))
  reconciled-Stepped chain env wire body w p (ready st) p'
        (fresh_slot, installed, epoch, structural, digest, answer) gone =
      (fresh_slot, installed, gone, epoch, structural, digest, KeptBody-refl body)
  reconciled-Stepped chain env wire body w p (boot_failed x) p' j gone = (j, KeptBody-refl body)
  reconciled-Stepped chain env wire body w p (adopt_forward_required st nonce) p'
        (kept, ahead, structural, answer) gone =
      subst
        (λ b.
          Stepped body b
            (reconciled c platform chain env body w (adopt_forward_required st nonce, p')))
        kept (marks_leg-Stepped st nonce body p' _ ahead)

  answered-Stepped :
      (chain : ℕ) (env : List ℕ) (body : KeystoreBody) (p : Process)
      (r : Attempt (List ℕ) (List ℕ) × W)
      → Stepped body p.binding (answered c platform chain env body p r)
  unfolding consume_outstanding_challenge
  answered-Stepped chain env body p (failed x, w) = (refl, KeptBody-refl body)
  answered-Stepped chain env body p (done wire, w) =
      let (j, gone) = boot_reconcile_anti_rollback_once c wire body p in
      reconciled-Stepped chain env wire body w p (boot_reconcile_anti_rollback c wire body p).0
        (boot_reconcile_anti_rollback c wire body p).1 j gone

  challenged-Stepped :
      (chain : ℕ) (env : List ℕ) (s : Run W) (draw : Option (List ℕ)) (w : W)
      → Stepped s.body s.process.binding
          (challenged c platform chain env s.body w (issue_challenge draw chain env s.process))
  unfolding issue_challenge
  challenged-Stepped chain env s none w = (refl, KeptBody-refl s.body)
  challenged-Stepped chain env s (some nonce) w =
      let challenge : Challenge = record {
        nonce = nonce;
        chain_id = chain;
        environment_identifier = env;
      } in
      answered-Stepped chain env s.body (record s.process { outstanding = some challenge }) _

  attempt-Stepped :
      (chain : ℕ) (env : List ℕ) (s : Run W)
      → Stepped s.body s.process.binding (boot_attempt c platform chain env s)
  unfolding boot_attempt
  attempt-Stepped chain env s =
      challenged-Stepped chain env s (platform.getrandom s.world).0 (platform.getrandom s.world).1

  Ended-from :
      (a b : KeystoreBody) (u v : Option AntiRollbackBinding) (o : BootDriverOutcome) (s : Run W)
      → v ≡ u
      → KeptBody a b
      → Ended b v o s
      → Ended a u o s
  Ended-from a b u v (driver_ready st) s e k (unset, set, gone, epoch, structural, digest, kept) =
      (sym e ∙ unset, set, gone, epoch, structural, digest, KeptBody-trans a b s.body k kept)
  Ended-from a b u v (driver_failed f) s e k (same, kept) =
      (same ∙ e, KeptBody-trans a b s.body k kept)

  next-Ended :
      (chain : ℕ) (env : List ℕ) (n : ℕ) (body : KeystoreBody) (b : Option AntiRollbackBinding)
      (step : Step) (s : Run W)
      → ((l : LastTransport)
          → let r = boot_loop c platform chain env l n s in Ended s.body s.process.binding r.0 r.1)
      → Stepped body b (step, s)
      → let r = elim step as (λ x. BootDriverOutcome × Run W) [
        | finish outcome ↦ (outcome, s)
        | again next ↦ boot_loop c platform chain env next n s
      ] in
        Ended body b r.0 r.1
  next-Ended chain env n body b (finish o) s ih h = h
  next-Ended chain env n body b (again l) s ih (same, kept) =
      Ended-from body s.body b s.process.binding _ _ same kept (ih l)

  loop-Ended :
      (chain : ℕ) (env : List ℕ) (last : LastTransport) (n : ℕ) (s : Run W)
      → let r = boot_loop c platform chain env last n s in Ended s.body s.process.binding r.0 r.1
  unfolding boot_loop
  loop-Ended chain env last zero s = (refl, KeptBody-refl s.body)
  loop-Ended chain env last (suc n) s =
      next-Ended chain env n s.body s.process.binding (boot_attempt c platform chain env s).0
        (boot_attempt c platform chain env s).1
        (λ l. loop-Ended chain env l n (boot_attempt c platform chain env s).1)
        (attempt-Stepped chain env s)

  -- The driver, whatever the platform does: ready only with the binding newly installed for a state
  -- that equals the body then held, and the challenge used up; on a failure the binding is as it
  -- was; configuration, keys, audit ring and structural version are kept and the epoch does not
  -- fall.
  pub run_boot_anti_rollback_handshake_sound :
      (max_attempts : ℕ) (s : Run W)
      → let r = run_boot_anti_rollback_handshake c platform max_attempts s in
        Ended s.body s.process.binding r.0 r.1
  unfolding run_boot_anti_rollback_handshake
  run_boot_anti_rollback_handshake_sound max_attempts s = elim (Bool-cases (max_attempts == 0)) [
    | inl no_attempt ↦ rw no_attempt (refl, KeptBody-refl s.body)
    | inr some_attempt ↦ elim (Bool-cases (ltb max_boot_attempts_ceiling max_attempts)) [
      | inl too_many ↦ rw (some_attempt, too_many) (refl, KeptBody-refl s.body)
      | inr in_range ↦ rw (some_attempt, in_range) (loop-Ended _ _ _ max_attempts s)
    ]
  ]

serve_iff :
    {W : Type 0} (c : Crypto) (platform : Platform W) (body : KeystoreBody)
    (b : Option AntiRollbackBinding) (o : BootDriverOutcome) (s : Run W) (st : AnchorState)
    → Ended c platform body b o s
    → (decide_serve o true s.process ≡ done st) ↔ (o ≡ driver_ready st)
unfolding decide_serve is_anti_rollback_configured
serve_iff c platform body b (driver_failed f) s st h = (λ e. cc, λ e. cc)
serve_iff c platform body b (driver_ready t) s st h = rw h.1 (λ e. cc, λ e. cc)

-- Under the production setting the enclave serves a state exactly when the driver ended ready with
-- that state.
pub decide_serve_ready :
    {W : Type 0} (c : Crypto) (platform : Platform W) (max_attempts : ℕ) (s : Run W)
    (st : AnchorState)
    → let r = run_boot_anti_rollback_handshake c platform max_attempts s in
      (decide_serve r.0 true r.1.process ≡ done st) ↔ (r.0 ≡ driver_ready st)
decide_serve_ready c platform max_attempts s st =
    let r = run_boot_anti_rollback_handshake c platform max_attempts s in
    serve_iff c platform s.body s.process.binding r.0 r.1 st
      (run_boot_anti_rollback_handshake_sound c platform max_attempts s)
