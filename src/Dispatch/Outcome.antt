-- ===== src/Dispatch/Outcome.antt =====
-- `dispatch_agent` of agent_dispatch.rs: where a response that carries a candidate comes from.
pub mod Reads
pub mod Routed
pub mod Shapes
use d_hsm.Prelude.{ℕ, ◌≡◌, refl, ap, List, Bool, true, false, not, ◌&&◌, ◌||◌, Option, ◌==◌}
use d_hsm.Prelude.Bytes.{bytes_eq}
use d_hsm.Prelude.Attempt.{done, ok_or, ensure, ensure-true}
use d_hsm.Prelude.Action.{>>=-eq-done, ◌>>◌}
use d_hsm.Crypto.{Crypto, IsCtEq}
use d_hsm.Keystore.Types.{KeystoreBody}
use d_hsm.Boot.Process.{Process, is_anti_rollback_configured}
use d_hsm.Capability.Parse.{malformed, not_configured}
use d_hsm.Signer.Curve.{Curve}
use d_hsm.Signer.Identity.{agent_gateway_version}
use d_hsm.Dispatch.Opcode.{AgentOpcode, from_u8, is_rollback_sensitive}
use d_hsm.Dispatch.Opcode
use d_hsm.Dispatch.Types.{Features, agent_gateway, AgentEnvelope, AgentResponse}
use d_hsm.Dispatch.Envelope.{decode_envelope, command_domain}
use d_hsm.Dispatch.Route.{dispatch_agent, anti_rollback_satisfied}
use d_hsm.Dispatch.Handled.Dispense.Authority.{and_true}
use d_hsm.Dispatch.Outcome.Reads.{is_read}
use d_hsm.Dispatch.Outcome.Routed.{Outcome, routed_outcome}

module _ {W : Type 0} (c : Crypto) (k : Curve) (features : Features)
    (getrandom : ℕ → W → Option (List ℕ) × W) where
  gate_open :
      (op : AgentOpcode) (p : Process) (x : KeystoreBody)
      → not (is_rollback_sensitive op && not (anti_rollback_satisfied p x)) ≡ true
      → is_rollback_sensitive op ≡ true
      → is_anti_rollback_configured p ≡ true
  unfolding anti_rollback_satisfied
  gate_open op p x h sensitive =
      go (is_rollback_sensitive op) (is_anti_rollback_configured p) h sensitive
    where
      go : (s t : Bool) → not (s && not (t || false)) ≡ true → s ≡ true → t ≡ true
      go true true e f = refl
      go true false e f = cc
      go false t e f = cc

  -- What an accepted dispatch is.
  pub record Dispatched (wire : List ℕ) (x : KeystoreBody) (p : Process) (r : AgentResponse)
      : Type 0 where
    pub env : AgentEnvelope
    pub decoded : decode_envelope wire ≡ done env
    pub domain : bytes_eq env.command_domain command_domain ≡ true
    pub outcome : Outcome c k features getrandom env x r
    pub gated : is_read r ≡ false → is_anti_rollback_configured p ≡ true

  pub dispatch_agent_sound :
      (wire : List ℕ) (x : KeystoreBody) (p : Process) (r : AgentResponse) (w w' : W)
      → IsCtEq c
      → dispatch_agent c k features getrandom agent_gateway wire x p w ≡ (done r, w')
      → Dispatched wire x p r
  unfolding dispatch_agent
  dispatch_agent_sound wire x p r w w' ct h =
      let (env, w0, e0, h0) = >>=-eq-done (decode_envelope wire, w) _ h in
      let (u1, w1, e1, h1) =
        >>=-eq-done
          (
            ensure
                (env.agent_version == agent_gateway_version
                  && bytes_eq env.command_domain command_domain)
                malformed,
            w0,
          )
          _ h0 in
      let (op, w2, e2, h2) = >>=-eq-done (ok_or (from_u8 env.opcode) malformed, w1) _ h1 in
      let open_gate = not (is_rollback_sensitive op && not (anti_rollback_satisfied p x)) in
      let (u3, w3, e3, h3) = >>=-eq-done (ensure open_gate not_configured, w2) _ h2 in
      let (outcome, sensitive) = routed_outcome c k features getrandom op env x r w3 w' ct h3 in
      record {
        env = env;
        decoded = ap (λ p. p.0) e0;
        domain =
            (and_true (env.agent_version == agent_gateway_version)
              (bytes_eq env.command_domain command_domain)
              (ensure-true
                (env.agent_version == agent_gateway_version
                  && bytes_eq env.command_domain command_domain)
                malformed (ap (λ p. p.0) e1))).1;
        outcome = outcome;
        gated = λ e.
            gate_open op p x (ensure-true open_gate not_configured (ap (λ p. p.0) e3))
              (sensitive e);
      }
