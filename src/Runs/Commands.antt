-- ===== src/Runs/Commands.antt =====
-- Runs of the capability check.
use d_hsm.Prelude.{◌≡◌, ◌≢◌, refl, [], ◌∷◌, false, none, arith, replicate}
use d_hsm.Prelude.Attempt.{done}
use d_hsm.Cbor.Value.{Entries, unsigned, bytes, text, bool, end, entry}
use d_hsm.Keystore.Types.{KeystoreBody, ok}
use d_hsm.Keystore.Counter.{row_key, new_row, advance_counter}
use d_hsm.Capability.Verify.{VerifiedCapability, signed_preimage, verify_capability_extract}
use d_hsm.Capability.Parse.{Capability}
use d_hsm.Capability.Signed.{CapabilityWide, capability_preimage_injective}
use d_hsm.Capability.Granted.{
  Granted, verify_capability_extract_sound, verify_capability_extract_once,
}
use d_hsm.Runs.Data.{body, word, env_name, toy, toy-IsCtEq}

abbrev capability_map : Entries
capability_map = entry (unsigned 1) (unsigned 2) (
    entry (unsigned 2) (unsigned 1) (
      entry (unsigned 4) (unsigned 1) (
        entry (unsigned 5) (unsigned 7) (
          entry (unsigned 6) (text env_name) (
            entry (unsigned 7) (unsigned 0) (
              entry (unsigned 8) (bytes (b't' ∷ [])) (
                entry (unsigned 9) (unsigned 1) (
                  entry (unsigned 10) (bytes (3 ∷ [])) (
                    entry (unsigned 11) (bytes (word 9)) (
                      entry (unsigned 12) (bool false) (
                        entry (unsigned 13) (bytes (word 5))
                          (entry (unsigned 14) (bytes (replicate 64 1)) end))))))))))))

abbrev granted : VerifiedCapability
granted = record {
  authority = word 2;
  scope_class = 0;
  scope_target = b't' ∷ [];
  counter = 1;
  payload_binding = word 9;
  key_purpose = 1;
  treasury_sub_op = none;
}

grants :
    verify_capability_extract toy capability_map 1 (3 ∷ []) body.config body.counters ≡ done granted
unfolding verify_capability_extract
grants = refl

verify_capability_extract_sound_example :
    Granted toy capability_map 1 (3 ∷ []) body.config body.counters granted
verify_capability_extract_sound_example =
    verify_capability_extract_sound toy capability_map 1 (3 ∷ []) body.config body.counters granted
      toy-IsCtEq grants

abbrev recorded : KeystoreBody
recorded = record body { counters = new_row (row_key body (word 2) 0 (b't' ∷ [])) 1 ∷ [] }

records :
    advance_counter body granted.authority granted.scope_class granted.scope_target granted.counter
    ≡ ok recorded
unfolding advance_counter
records = refl

verify_capability_extract_once_example :
    verify_capability_extract toy capability_map 1 (3 ∷ []) recorded.config recorded.counters
    ≢ done granted
verify_capability_extract_once_example =
    verify_capability_extract_once toy capability_map 1 (3 ∷ []) body recorded granted granted
      toy-IsCtEq grants records

abbrev capability : Capability
capability = record {
  cap_format_version = 2;
  command_opcode = 1;
  treasury_sub_op = none;
  key_purpose = 1;
  chain_id = 7;
  environment_identifier = env_name;
  scope_class = 0;
  scope_target = b't' ∷ [];
  counter = 1;
  request_id = 3 ∷ [];
  payload_binding = word 9;
  is_recovery = false;
  scope_identity = word 5;
  signature = replicate 64 1;
}

abbrev capability_resigned : Capability
capability_resigned = record capability { signature = replicate 64 2 }

capability-Wide : CapabilityWide capability
capability-Wide = record {
  version_u64 = omega arith;
  opcode_u64 = omega arith;
  sub_op_u64 = tt;
  purpose_u64 = omega arith;
  chain_u64 = omega arith;
  environment_u64 = omega arith;
  class_u64 = omega arith;
  target_u64 = omega arith;
  counter_u64 = omega arith;
  request_u64 = omega arith;
  binding_u64 = omega arith;
  identity_u64 = omega arith;
}

capability_resigned-Wide : CapabilityWide capability_resigned
capability_resigned-Wide = record {
  version_u64 = omega arith;
  opcode_u64 = omega arith;
  sub_op_u64 = tt;
  purpose_u64 = omega arith;
  chain_u64 = omega arith;
  environment_u64 = omega arith;
  class_u64 = omega arith;
  target_u64 = omega arith;
  counter_u64 = omega arith;
  request_u64 = omega arith;
  binding_u64 = omega arith;
  identity_u64 = omega arith;
}

-- The signature is not signed.
same_capability_bytes : signed_preimage capability ≡ signed_preimage capability_resigned
unfolding signed_preimage
same_capability_bytes = refl

capability_preimage_injective_example :
    (capability.cap_format_version ≡ capability_resigned.cap_format_version)
    × (capability.command_opcode ≡ capability_resigned.command_opcode)
    × (capability.treasury_sub_op ≡ capability_resigned.treasury_sub_op)
    × (capability.key_purpose ≡ capability_resigned.key_purpose)
    × (capability.chain_id ≡ capability_resigned.chain_id)
    × (capability.environment_identifier ≡ capability_resigned.environment_identifier)
    × (capability.scope_class ≡ capability_resigned.scope_class)
    × (capability.scope_target ≡ capability_resigned.scope_target)
    × (capability.counter ≡ capability_resigned.counter)
    × (capability.request_id ≡ capability_resigned.request_id)
    × (capability.payload_binding ≡ capability_resigned.payload_binding)
    × (capability.is_recovery ≡ capability_resigned.is_recovery)
    × (capability.scope_identity ≡ capability_resigned.scope_identity)
capability_preimage_injective_example =
    capability_preimage_injective capability capability_resigned capability-Wide
      capability_resigned-Wide same_capability_bytes
