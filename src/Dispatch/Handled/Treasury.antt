-- ===== src/Dispatch/Handled/Treasury.antt =====
-- `handle_configure_treasury` of agent_dispatch.rs: what a sub-operation changes, and the candidate.
use d_hsm.Prelude.{
  ℕ, ◌+◌, ◌≤◌, ◌≡◌, ◌≢◌, refl, sym, subst, List, [], Bool, true, not, not-eq_true, Option, none,
  some, arith, append-nil, replicate, ◌==◌, ==_iff,
}
use d_hsm.Prelude.Bytes.{bytes_eq, bytes_lt}
use d_hsm.Prelude.Attempt.{done, ok_or, >>=-eq-done, ensure-done, ok_or-done, done_inv}
use d_hsm.Crypto.{Crypto, IsCtEq}
use d_hsm.Keystore.Types.{KeystoreBody, FaucetState}
use d_hsm.Keystore.Grows.{Grows, Grows-trans}
use d_hsm.Capability.Parse.{malformed, capability_rejected, cap_exceeded}
use d_hsm.Capability.Verify.{VerifiedCapability, payload_binding}
use d_hsm.Signer.Curve.{Curve}
use d_hsm.Cbor.Value.{Entries}
use d_hsm.Cbor.Access.{read_at, as_u8}
use d_hsm.Dispatch.Types.{AgentEnvelope, configure_treasury}
use d_hsm.Dispatch.Privileged.{finish_configure}
use d_hsm.Dispatch.Treasury.{
  Params, set_limits, refill_budget, raise_breaker, reset_breaker, Command, read_command,
  apply_params, next_recovery, is_sub_op, handle_configure_treasury,
}
use d_hsm.Dispatch.Handled.Tail.{finish_configure-Grows}

-- A body with another faucet and recovery counter.
abbrev with_faucet : KeystoreBody → FaucetState → ℕ → KeystoreBody
with_faucet x f recovery = record x { faucet = f; strict_recovery_counter = recovery }

with_faucet-Grows :
    (x : KeystoreBody) (f : FaucetState) (recovery : ℕ)
    → x.strict_recovery_counter ≤ recovery
    → Grows 0 x (with_faucet x f recovery)
with_faucet-Grows x f recovery h = record {
  epoch = omega arith;
  structural = omega arith;
  identity = refl;
  version = omega arith;
  recovery = h;
  keys = ([], sym (append-nil x.entries));
  counters = λ k. omega arith;
  audit_end = omega arith;
}

next_recovery-done : (n k : ℕ) → next_recovery n ≡ done k → k ≡ n + 1
next_recovery-done n k h = ground (arith, h)

-- What an accepted sub-operation writes.
abbrev pub Applied : Params → KeystoreBody → KeystoreBody → Type 0
Applied (set_limits per_dispense gas rate) x y = y ≡ record x {
  faucet = record x.faucet {
    per_dispense_max_amount = per_dispense;
    max_gas_limit = gas;
    max_effective_gas_fee_rate = rate;
  };
}
Applied (refill_budget budget) x y =
    (bytes_eq budget (replicate 32 0) ≢ true)
    × (y ≡ record x {
      faucet = record x.faucet {
        cumulative_signing_budget = budget;
        cumulative_native_spend = replicate 32 0;
      };
    })
Applied (raise_breaker threshold) x y =
    (bytes_lt threshold x.faucet.lifetime_spend ≢ true)
    × (y ≡ record x { faucet = record x.faucet { circuit_breaker_threshold = some threshold } })
Applied (reset_breaker target) x y =
    (bytes_lt x.faucet.lifetime_spend target ≢ true)
    × (y ≡ record x {
      faucet = record x.faucet { lifetime_spend = target; circuit_breaker_threshold = none };
      strict_recovery_counter = x.strict_recovery_counter + 1;
    })

not-true : (b : Bool) → not b ≡ true → b ≢ true
not-true b h e = cc (not-eq_true b h)

apply_params-Applied : (p : Params) (x y : KeystoreBody) → apply_params p x ≡ done y → Applied p x y
unfolding apply_params
apply_params-Applied (set_limits per_dispense gas rate) x y h = sym (done_inv h)
apply_params-Applied (refill_budget budget) x y h =
    let (ok_budget, h1) = ensure-done (not (bytes_eq budget (replicate 32 0))) cap_exceeded _ h in
    (not-true (bytes_eq budget (replicate 32 0)) ok_budget, sym (done_inv h1))
apply_params-Applied (raise_breaker threshold) x y h =
    let (ok_threshold, h1) =
      ensure-done (not (bytes_lt threshold x.faucet.lifetime_spend)) cap_exceeded _ h in
    (not-true (bytes_lt threshold x.faucet.lifetime_spend) ok_threshold, sym (done_inv h1))
apply_params-Applied (reset_breaker target) x y h =
    let (ok_target, h1) =
      ensure-done (not (bytes_lt x.faucet.lifetime_spend target)) cap_exceeded _ h in
    let (recovery, e2, h2) = >>=-eq-done (next_recovery x.strict_recovery_counter) _ h1 in
    let same = next_recovery-done x.strict_recovery_counter recovery e2 in
    (
      not-true (bytes_lt x.faucet.lifetime_spend target) ok_target,
      sym (
          subst
            (λ n.
              record x {
                faucet = record x.faucet {
                  lifetime_spend = target;
                  circuit_breaker_threshold = none;
                };
                strict_recovery_counter = n;
              }
              ≡ y)
            same (done_inv h2)),
    )

pub Applied-Grows : (p : Params) (x y : KeystoreBody) → Applied p x y → Grows 0 x y
Applied-Grows (set_limits per_dispense gas rate) x y h =
    subst (Grows 0 x) (sym h) (with_faucet-Grows x _ x.strict_recovery_counter (omega arith))
Applied-Grows (refill_budget budget) x y h =
    subst (Grows 0 x) (sym h.1) (with_faucet-Grows x _ x.strict_recovery_counter (omega arith))
Applied-Grows (raise_breaker threshold) x y h =
    subst (Grows 0 x) (sym h.1) (with_faucet-Grows x _ x.strict_recovery_counter (omega arith))
Applied-Grows (reset_breaker target) x y h =
    subst (Grows 0 x) (sym h.1)
      (with_faucet-Grows x _ (x.strict_recovery_counter + 1) (omega arith))

-- What an accepted treasury command is.
pub record Configured (c : Crypto) (k : Curve) (env : AgentEnvelope) (x : KeystoreBody)
    (v : VerifiedCapability) (y : KeystoreBody) : Type 0 where
  pub payload : Entries
  pub sent : env.payload ≡ some payload
  pub sub_op : ℕ
  pub command : Command
  pub read : read_command sub_op payload ≡ done command
  pub mutated : KeystoreBody
  pub granted_sub_op : v.treasury_sub_op ≡ some sub_op
  pub bound :
      payload_binding k.keccak256 env.opcode (some sub_op) env.request_id command.canonical_params
      ≡ v.payload_binding
  pub enclave_scoped : v.scope_class ≡ 0
  pub applied : Applied command.params x mutated
  pub finished : finish_configure env v sub_op mutated ≡ done y

is_sub_op-some : (o : Option ℕ) (n : ℕ) → is_sub_op o n ≡ true → o ≡ some n
is_sub_op-some none n h = cc
is_sub_op-some (some s) n h = ground (arith, h)

configure_treasury_inv :
    (y y' : KeystoreBody) (r r' : List ℕ)
    → configure_treasury y r ≡ configure_treasury y' r'
    → y ≡ y'
configure_treasury_inv y y' r r' h = cc

-- Where `ct_eq` is equality, an accepted treasury command was granted for its sub-operation, for
-- exactly these parameters and for this enclave alone; the candidate is the body with that
-- sub-operation applied, and then counted, versioned, committed and audited.
pub handle_configure_treasury_sound :
    (c : Crypto) (k : Curve) (env : AgentEnvelope) (x : KeystoreBody) (v : VerifiedCapability)
    (y : KeystoreBody) (request_id : List ℕ)
    → IsCtEq c
    → handle_configure_treasury c k env x v ≡ done (configure_treasury y request_id)
    → Configured c k env x v y
unfolding handle_configure_treasury
handle_configure_treasury_sound c k env x v y request_id ct h =
    let (payload, e0, h0) = >>=-eq-done (ok_or env.payload malformed) _ h in
    let (sub_op, e1, h1) = >>=-eq-done (ok_or (read_at as_u8 payload 1) malformed) _ h0 in
    let (command, e2, h2) = >>=-eq-done (read_command sub_op payload) _ h1 in
    let (granted, h3) = ensure-done (is_sub_op v.treasury_sub_op sub_op) capability_rejected _ h2 in
    let computed =
      payload_binding k.keccak256 env.opcode (some sub_op) env.request_id
        command.canonical_params in
    let (bound, h4) = ensure-done (c.ct_eq computed v.payload_binding) capability_rejected _ h3 in
    let (scoped, h5) = ensure-done (v.scope_class == 0) capability_rejected _ h4 in
    let (mutated, e6, h6) = >>=-eq-done (apply_params command.params x) _ h5 in
    let (candidate, e7, h7) = >>=-eq-done (finish_configure env v sub_op mutated) _ h6 in
    record {
      payload = payload;
      sent = ok_or-done env.payload malformed e0;
      sub_op = sub_op;
      command = command;
      read = e2;
      mutated = mutated;
      granted_sub_op = is_sub_op-some v.treasury_sub_op sub_op granted;
      bound = (ct.exact computed v.payload_binding).0 bound;
      enclave_scoped = (==_iff v.scope_class 0).0 scoped;
      applied = apply_params-Applied command.params x mutated e6;
      finished =
          subst (λ z. finish_configure env v sub_op mutated ≡ done z)
            (configure_treasury_inv candidate y env.request_id request_id (done_inv h7)) e7;
    }

pub Configured-Grows :
    (c : Crypto) (k : Curve) (env : AgentEnvelope) (x : KeystoreBody) (v : VerifiedCapability)
    (y : KeystoreBody)
    → Configured c k env x v y
    → Grows 1 x y
Configured-Grows c k env x v y g =
    Grows-trans 0 1 x g.mutated y (Applied-Grows g.command.params x g.mutated g.applied)
      (finish_configure-Grows env v g.sub_op g.mutated y g.finished)
