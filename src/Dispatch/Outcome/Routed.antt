-- ===== src/Dispatch/Outcome/Routed.antt =====
-- The handlers behind `dispatch_agent` of agent_dispatch.rs: what a response that they return is.
use d_hsm.Prelude.{
  ℕ, ◌≡◌, refl, sym, ap, ◌∙◌, subst, List, Bool, true, false, not, Option, if◌then◌else◌,
}
use d_hsm.Prelude.Attempt.{Attempt, done, ensure}
use d_hsm.Prelude.Action.{>>=-eq-done, Action, lift, ◌>>◌}
use d_hsm.Crypto.{Crypto, IsCtEq}
use d_hsm.Keystore.Types.{KeystoreBody}
use d_hsm.Capability.Parse.{AgentError, malformed, capability_rejected}
use d_hsm.Capability.Verify.{VerifiedCapability}
use d_hsm.Signer.Curve.{Curve}
use d_hsm.Signer.Transfer.{SignedTransfer}
use d_hsm.Signer.Keygen.{GeneratedKey}
use d_hsm.Dispatch.Opcode.{AgentOpcode, from_u8, is_rollback_sensitive}
use d_hsm.Dispatch.Opcode
use d_hsm.Dispatch.Types.{
  Features, AgentEnvelope, AgentResponse, generate_keys, configure_treasury, sign_faucet_dispense,
  is_some,
}
use d_hsm.Dispatch.Privileged.{verify_capability}
use d_hsm.Dispatch.Identity.{handle_prove_identity}
use d_hsm.Dispatch.Payload.{handle_sign_transfer}
use d_hsm.Dispatch.Faucet.{handle_sign_faucet_dispense}
use d_hsm.Dispatch.Mint.{handle_generate_keys}
use d_hsm.Dispatch.Treasury.{handle_configure_treasury}
use d_hsm.Dispatch.Route.{off, privileged_handler, privileged, runtime_handler, routed}
use d_hsm.Dispatch.Handled.Minted.{MintedFor, handle_generate_keys_sound}
use d_hsm.Dispatch.Handled.Treasury.{Configured, handle_configure_treasury_sound}
use d_hsm.Dispatch.Handled.Dispense.{Dispensed, handle_sign_faucet_dispense_sound}
use d_hsm.Dispatch.Outcome.Shapes.{generate_shape, configure_shape, dispense_shape}
use d_hsm.Dispatch.Outcome.Reads.{
  is_read, public_identity_reads, prove_identity_reads, sign_transfer_reads,
}

module _ {W : Type 0} (c : Crypto) (k : Curve) (features : Features)
    (getrandom : ℕ → W → Option (List ℕ) × W) where
  -- A response to an envelope, by what it carries and what has granted it.
  pub data Outcome (env : AgentEnvelope) (x : KeystoreBody) : AgentResponse → Type 0 where
    reads : (r : AgentResponse) → is_read r ≡ true → Outcome env x r
    minted :
        (v : VerifiedCapability) (keys : List GeneratedKey) (y : KeystoreBody)
        → verify_capability c env x ≡ done v
        → MintedFor c k getrandom env x v keys y
        → Outcome env x (generate_keys keys y env.request_id)
    configured :
        (v : VerifiedCapability) (y : KeystoreBody)
        → verify_capability c env x ≡ done v
        → Configured c k env x v y
        → Outcome env x (configure_treasury y env.request_id)
    dispensed :
        (signed : SignedTransfer) (y : KeystoreBody)
        → Dispensed k env x signed y
        → Outcome env x (sign_faucet_dispense signed y env.request_id)

  -- A feature that is off answers with an error.
  featured :
      (on : Bool) (m : Action W AgentError AgentResponse) (w w' : W) (r : AgentResponse)
      → (if on then m else off c k features getrandom) w ≡ (done r, w')
      → m w ≡ (done r, w')
  featured true m w w' r h = h
  featured false m w w' r h = cc

  -- What an accepted routing is, and that a candidate needs the binding.
  abbrev pub Routed : AgentOpcode → AgentEnvelope → KeystoreBody → AgentResponse → Type 0
  Routed op env x r = Outcome env x r × (is_read r ≡ false → is_rollback_sensitive op ≡ true)

  read-Routed :
      (op : AgentOpcode) (env : AgentEnvelope) (x : KeystoreBody) (r : AgentResponse)
      → is_read r ≡ true
      → Routed op env x r
  read-Routed op env x r h = (reads r h, λ e. cc (h, e))

  generate_routed :
      (env : AgentEnvelope) (x : KeystoreBody) (v : VerifiedCapability) (r : AgentResponse)
      (w w' : W)
      → IsCtEq c
      → verify_capability c env x ≡ done v
      → handle_generate_keys c k getrandom env x v w ≡ (done r, w')
      → Outcome env x r
  generate_routed env x v r w w' ct granted h =
      let (keys, y, shape) = generate_shape c k getrandom env x v r w w' h in
      let made : handle_generate_keys c k getrandom env x v w
          ≡ (done (generate_keys keys y env.request_id), w') =
        h ∙ ap (λ s. (done s, w')) shape in
      subst (Outcome env x) (sym shape) (
        minted v keys y granted
          (handle_generate_keys_sound c k getrandom env x v keys y env.request_id w w' ct made))

  configure_routed :
      (env : AgentEnvelope) (x : KeystoreBody) (v : VerifiedCapability) (r : AgentResponse)
      → IsCtEq c
      → verify_capability c env x ≡ done v
      → handle_configure_treasury c k env x v ≡ done r
      → Outcome env x r
  configure_routed env x v r ct granted h =
      let (y, shape) = configure_shape k env x r c v h in
      subst (Outcome env x) (sym shape) (
        configured v y granted
          (handle_configure_treasury_sound c k env x v y env.request_id ct (h ∙ ap done shape)))

  dispense_routed :
      (env : AgentEnvelope) (x : KeystoreBody) (r : AgentResponse)
      → handle_sign_faucet_dispense k env x ≡ done r
      → Outcome env x r
  dispense_routed env x r h =
      let (signed, y, shape) = dispense_shape k env x r h in
      subst (Outcome env x) (sym shape) (
        dispensed signed y
          (handle_sign_faucet_dispense_sound k env x signed y env.request_id (h ∙ ap done shape)))

  -- A privileged response comes from the handler of its opcode, with a granted capability.
  privileged_inv :
      (op : AgentOpcode) (env : AgentEnvelope) (x : KeystoreBody) (r : AgentResponse) (w w' : W)
      → privileged c k features getrandom op env x w ≡ (done r, w')
      → (v : VerifiedCapability) × (verify_capability c env x ≡ done v)
        × (privileged_handler c k features getrandom op env x v w ≡ (done r, w'))
  unfolding privileged
  privileged_inv op env x r w w' h =
      let (u, w0, e0, h0) =
        >>=-eq-done (ensure (is_some env.capability) capability_rejected, w) _ h in
      let (v, w1, e1, h1) = >>=-eq-done (verify_capability c env x, w0) _ h0 in
      let same : w ≡ w1 = ap (λ p. p.1) e0 ∙ ap (λ p. p.1) e1 in
      (
        v,
        ap (λ p. p.0) e1,
        subst
            (λ t.
              ◌≡◌ {A = Attempt AgentError AgentResponse × W}
                (privileged_handler c k features getrandom op env x v t) (done r, w'))
            (sym same) h1,
      )

  -- A response of another opcode comes from its handler.
  runtime_inv :
      (op : AgentOpcode) (env : AgentEnvelope) (x : KeystoreBody) (r : AgentResponse) (w w' : W)
      → (lift (ensure (not (is_some env.capability)) malformed)
            >> runtime_handler c k features getrandom op env x)
          w
        ≡ (done r, w')
      → runtime_handler c k features getrandom op env x w ≡ (done r, w')
  runtime_inv op env x r w w' h =
      let (u, w0, e0, h0) = >>=-eq-done (ensure (not (is_some env.capability)) malformed, w) _ h in
      subst
        (λ t.
          ◌≡◌ {A = Attempt AgentError AgentResponse × W}
            (runtime_handler c k features getrandom op env x t) (done r, w'))
        (sym (ap (λ p. p.1) e0)) h0

  pub routed_outcome :
      (op : AgentOpcode) (env : AgentEnvelope) (x : KeystoreBody) (r : AgentResponse) (w w' : W)
      → IsCtEq c
      → routed c k features getrandom op env x w ≡ (done r, w')
      → Routed op env x r
  unfolding routed runtime_handler privileged_handler
  routed_outcome Opcode.generate_keys env x r w w' ct h =
      let (v, granted, h1) = privileged_inv Opcode.generate_keys env x r w w' h in
      let made =
        featured features.keygen_exec (handle_generate_keys c k getrandom env x v) w w' r h1 in
      (generate_routed env x v r w w' ct granted made, λ e. refl)
  routed_outcome Opcode.configure_treasury env x r w w' ct h =
      let (v, granted, h1) = privileged_inv Opcode.configure_treasury env x r w w' h in
      let made =
        featured features.configure_treasury (lift (handle_configure_treasury c k env x v)) w w' r
          h1 in
      (configure_routed env x v r ct granted (ap (λ p. p.0) made), λ e. refl)
  routed_outcome Opcode.export_backup env x r w w' ct h =
      let (v, granted, h1) = privileged_inv Opcode.export_backup env x r w w' h in cc
  routed_outcome Opcode.restore_backup env x r w w' ct h =
      let (v, granted, h1) = privileged_inv Opcode.restore_backup env x r w w' h in cc
  routed_outcome Opcode.public_identity env x r w w' ct h =
      let h1 = runtime_inv Opcode.public_identity env x r w w' h in
      read-Routed Opcode.public_identity env x r
        (public_identity_reads k env x r (ap (λ p. p.0) h1))
  routed_outcome Opcode.prove_identity env x r w w' ct h =
      let h1 = runtime_inv Opcode.prove_identity env x r w w' h in
      let made =
        featured features.prove_identity (lift (handle_prove_identity k env x)) w w' r h1 in
      read-Routed Opcode.prove_identity env x r
        (prove_identity_reads k env x r (ap (λ p. p.0) made))
  routed_outcome Opcode.sign_transfer env x r w w' ct h =
      let h1 = runtime_inv Opcode.sign_transfer env x r w w' h in
      let made = featured features.sign_transfer (lift (handle_sign_transfer k env x)) w w' r h1 in
      read-Routed Opcode.sign_transfer env x r (sign_transfer_reads k env x r (ap (λ p. p.0) made))
  routed_outcome Opcode.sign_faucet_dispense env x r w w' ct h =
      let h1 = runtime_inv Opcode.sign_faucet_dispense env x r w w' h in
      let made =
        featured features.sign_faucet (lift (handle_sign_faucet_dispense k env x)) w w' r h1 in
      (dispense_routed env x r (ap (λ p. p.0) made), λ e. refl)
  routed_outcome Opcode.get_restore_pubkey env x r w w' ct h =
      let h1 = runtime_inv Opcode.get_restore_pubkey env x r w w' h in cc
