-- ===== src/Dispatch/Treasury.antt =====
-- `configure_treasury_canonical_params` and `handle_configure_treasury` of agent_dispatch.rs.
use d_hsm.Prelude.{
  ℕ, ◌+◌, ◌^◌, List, [], ◌++◌, Bool, false, not, Option, none, some, leb, ◌==◌, if◌then◌else◌,
  replicate,
}
use d_hsm.Prelude.Bytes.{bytes_eq, bytes_lt}
use d_hsm.Prelude.Attempt.{Attempt, done, failed, ensure, ok_or, ◌>>=◌, ◌>>◌}
use d_hsm.Crypto.{Crypto}
use d_hsm.U256.{from_minimal_be}
use d_hsm.Cbor.Value.{Entries}
use d_hsm.Cbor.Encode.{put_uint, put_bytes}
use d_hsm.Cbor.Access.{map_get, read_at, as_u64, as_u8, as_u256_minimal_be}
use d_hsm.Keystore.Types.{KeystoreBody}
use d_hsm.Capability.Parse.{AgentError, malformed, capability_rejected, cap_exceeded, seal_failed}
use d_hsm.Capability.Verify.{VerifiedCapability, payload_binding}
use d_hsm.Signer.Curve.{Curve}
use d_hsm.Dispatch.Privileged.{finish_configure}
use d_hsm.Dispatch.Types.{AgentEnvelope, AgentResponse, configure_treasury, entry_count}

abbrev pub put_gas_fields : Option (ℕ × ℕ) → List ℕ
put_gas_fields none = []
put_gas_fields (some (max_gas_limit, max_fee_rate)) =
    put_uint 0 3 ++ (put_uint 0 max_gas_limit ++ (put_uint 0 4 ++ put_uint 0 max_fee_rate))

abbrev pub key_count : Option (ℕ × ℕ) → ℕ
key_count none = 2
key_count (some gas) = 4

unfoldable pub configure_treasury_canonical_params : ℕ → List ℕ → Option (ℕ × ℕ) → List ℕ
unfolding put_uint put_bytes
configure_treasury_canonical_params sub_op field2 gas =
    put_uint 5 (key_count gas)
    ++ (put_uint 0 1
        ++ (put_uint 0 sub_op ++ (put_uint 0 2 ++ (put_bytes field2 ++ put_gas_fields gas))))

pub data Params : Type 0 where
  set_limits : List ℕ → ℕ → ℕ → Params
  refill_budget raise_breaker reset_breaker : List ℕ → Params

pub record Command : Type 0 where
  pub params : Params
  pub canonical_params : List ℕ

-- `read_u256`: the bytes on the wire and the word.
unfoldable pub read_u256 : Entries → ℕ → Attempt AgentError (List ℕ × List ℕ)
unfolding map_get from_minimal_be
read_u256 payload key = do
  minimal ← ok_or (read_at as_u256_minimal_be payload key) malformed
  lifted ← ok_or (from_minimal_be minimal) malformed
  done (minimal, lifted)

-- The sub-operations with one field.
unfoldable pub one_field : (List ℕ → Params) → ℕ → Entries → Attempt AgentError Command
unfolding read_u256 configure_treasury_canonical_params
one_field make sub_op payload = do
  ensure (entry_count payload == 2) malformed
  (minimal, lifted) ← read_u256 payload 2
  done (record {
    params = make lifted;
    canonical_params = configure_treasury_canonical_params sub_op minimal none;
  })

unfoldable pub limits_fields : Entries → Attempt AgentError Command
unfolding map_get read_u256 configure_treasury_canonical_params
limits_fields payload = do
  ensure (entry_count payload == 4) malformed
  (minimal, per_dispense_max) ← read_u256 payload 2
  max_gas_limit ← ok_or (read_at as_u64 payload 3) malformed
  max_fee_rate ← ok_or (read_at as_u64 payload 4) malformed
  done (record {
    params = set_limits per_dispense_max max_gas_limit max_fee_rate;
    canonical_params =
        configure_treasury_canonical_params 0 minimal (some (max_gas_limit, max_fee_rate));
  })

-- The match on the sub-operation.
unfoldable pub read_command : ℕ → Entries → Attempt AgentError Command
unfolding one_field limits_fields
read_command sub_op payload =
    if sub_op == 0
    then limits_fields payload
    else if sub_op == 1
    then one_field refill_budget 1 payload
    else if sub_op == 2
    then one_field raise_breaker 2 payload
    else if sub_op == 3
    then one_field reset_breaker 3 payload
    else failed malformed

-- `checked_add(1)` on the recovery counter.
abbrev pub next_recovery : ℕ → Attempt AgentError ℕ
next_recovery n = if leb (2 ^ 64) (n + 1) then failed seal_failed else done (n + 1)

-- The mutation of the candidate's faucet.
unfoldable pub apply_params : Params → KeystoreBody → Attempt AgentError KeystoreBody
unfolding bytes_eq bytes_lt
apply_params (set_limits per_dispense_max max_gas_limit max_fee_rate) body = done (record body {
  faucet = record body.faucet {
    per_dispense_max_amount = per_dispense_max;
    max_gas_limit = max_gas_limit;
    max_effective_gas_fee_rate = max_fee_rate;
  };
})
apply_params (refill_budget new_budget) body = do
  ensure (not (bytes_eq new_budget (replicate 32 0))) cap_exceeded
  done (record body {
    faucet = record body.faucet {
      cumulative_signing_budget = new_budget;
      cumulative_native_spend = replicate 32 0;
    };
  })
apply_params (raise_breaker new_threshold) body = do
  ensure (not (bytes_lt new_threshold body.faucet.lifetime_spend)) cap_exceeded
  done (record body {
    faucet = record body.faucet { circuit_breaker_threshold = some new_threshold };
  })
apply_params (reset_breaker target) body = do
  ensure (not (bytes_lt body.faucet.lifetime_spend target)) cap_exceeded
  recovery ← next_recovery body.strict_recovery_counter
  done (record body {
    faucet = record body.faucet { lifetime_spend = target; circuit_breaker_threshold = none };
    strict_recovery_counter = recovery;
  })

-- `verified.treasury_sub_op == Some(sub_op)`.
abbrev pub is_sub_op : Option ℕ → ℕ → Bool
is_sub_op none sub_op = false
is_sub_op (some s) sub_op = s == sub_op

unfoldable pub handle_configure_treasury :
    Crypto
    → Curve
    → AgentEnvelope
    → KeystoreBody
    → VerifiedCapability
    → Attempt AgentError AgentResponse
unfolding map_get read_command payload_binding apply_params finish_configure
handle_configure_treasury c k env keystore v = do
  payload ← ok_or env.payload malformed
  sub_op ← ok_or (read_at as_u8 payload 1) malformed
  command ← read_command sub_op payload
  ensure (is_sub_op v.treasury_sub_op sub_op) capability_rejected
  let computed =
      payload_binding k.keccak256 env.opcode (some sub_op) env.request_id command.canonical_params
  ensure (c.ct_eq computed v.payload_binding) capability_rejected
  ensure (v.scope_class == 0) capability_rejected
  mutated ← apply_params command.params keystore
  candidate ← finish_configure env v sub_op mutated
  done (configure_treasury candidate env.request_id)
