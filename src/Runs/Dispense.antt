-- ===== src/Runs/Dispense.antt =====
-- A dispense that the handler signs.
use d_hsm.Prelude.{ℕ, ◌≡◌, refl, List, [], ◌∷◌, ◌++◌, true, none, some, length, replicate}
use d_hsm.Prelude.Bytes.{be_bytes, be_value, bytes_lt}
use d_hsm.Prelude.Attempt.{done}
use d_hsm.Cbor.Value.{Entries, unsigned, bytes, end, entry}
use d_hsm.Cbor.Canonical.{encode}
use d_hsm.Cbor.Utf8.{is_utf8}
use d_hsm.Keystore.Types.{
  KeystoreBody, KeyEntry, agent_faucet_treasury_k1, agent_transfer_k1, secp256k1,
}
use d_hsm.Signer.Curve.{Curve, RecoverableSignature}
use d_hsm.Dispatch.Envelope.{command_domain}
use d_hsm.Dispatch.Types.{AgentEnvelope, sign_faucet_dispense}
use d_hsm.Dispatch.Handled.Bytes.{ByteStrings}
use d_hsm.Dispatch.Handled.Dispense.{Dispensed, handle_sign_faucet_dispense_spends}
use d_hsm.Keystore.Faucet.Gate.{Debited}
use d_hsm.Dispatch.Faucet.{handle_sign_faucet_dispense}
use d_hsm.Signer.Transfer.{EthTransferFields, SignedTransfer, signed_rlp}
use d_hsm.Runs.Data.{body, word, all_bytes_sound, faucet, faucet-IsFaucet}

abbrev first : List ℕ → ℕ
first [] = 0
first (x ∷ xs) = x

abbrev point : List ℕ
point = 0x04 ∷ replicate 64 9

abbrev pub toy_curve : Curve
toy_curve = record {
  keccak256 = λ l. word (first l);
  sha256 = λ l. word (length l);
  base58 = λ l. l;
  from_slice = λ l. some point;
  point_ok = λ l. true;
  sign_prehash_recoverable = λ s h. some (replicate 64 1, 0);
  signature_ok = λ s. true;
  recovery_id_ok = λ n. true;
  recover_from_prehash = λ h s n. some point;
}

abbrev treasury_key : KeyEntry
treasury_key = record {
  key_ref = word 20;
  purpose = agent_faucet_treasury_k1;
  algorithm = secp256k1;
  public_identity = point;
  secret_scalar = word 1;
  creation_metadata = record { config_version = 1; counter_snapshot = 1; batch_id = 1 };
  backup_export_metadata = record { last_exported_seq = 0 };
}

abbrev agent_key : KeyEntry
agent_key = record treasury_key {
  key_ref = word 21;
  purpose = agent_transfer_k1;
  public_identity = 0x04 ∷ replicate 64 7;
}

abbrev pub funded : KeystoreBody
funded = record body { entries = treasury_key ∷ agent_key ∷ [] }

abbrev treasury_address : List ℕ
treasury_address = replicate 20 9

abbrev agent_address : List ℕ
agent_address = replicate 20 7

abbrev pub dispense_map : Entries
dispense_map = entry (unsigned 1) (unsigned 7) (
    entry (unsigned 2) (bytes treasury_address) (
      entry (unsigned 3) (bytes agent_address) (
        entry (unsigned 4) (bytes (5 ∷ [])) (
          entry (unsigned 5) (unsigned 3) (
            entry (unsigned 6) (unsigned 10)
              (entry (unsigned 7) (bytes (2 ∷ [])) (entry (unsigned 8) (bytes []) end)))))))

abbrev pub dispense_request : AgentEnvelope
dispense_request = record {
  agent_version = 1;
  opcode = 5;
  command_domain = command_domain;
  request_id = 9 ∷ [];
  capability = none;
  key_ref = some (word 20);
  payload = some dispense_map;
}

abbrev dispense_fields : EthTransferFields
dispense_fields = record {
  chain_id = 7;
  nonce = 3;
  gas_limit = 10;
  to = agent_address;
  value_be = 5 ∷ [];
  gas_price_be = 2 ∷ [];
}

dispense_map-ByteStrings : ByteStrings dispense_map
dispense_map-ByteStrings =
    let from = all_bytes_sound treasury_address refl in
    let to = all_bytes_sound agent_address refl in
    let amount = all_bytes_sound (5 ∷ []) refl in
    let price = all_bytes_sound (2 ∷ []) refl in
    (tt, (from, (to, (amount, (tt, (tt, (price, (tt, tt))))))))

abbrev dispense_signature : RecoverableSignature
dispense_signature = record { r = replicate 32 1; s = replicate 32 1; recovery_id = 0 }

abbrev dispense_signed : SignedTransfer
dispense_signed = record {
  signature = dispense_signature;
  v = 49;
  signing_hash = word 221;
  signed_rlp = signed_rlp dispense_fields dispense_signature 49;
  from = treasury_address;
}

-- 5 and 10 times 2.
abbrev spent_word : List ℕ
spent_word = replicate 31 0 ++ (25 ∷ [])

abbrev dispense_candidate : KeystoreBody
dispense_candidate = record funded {
  faucet = record faucet { cumulative_native_spend = spent_word; lifetime_spend = spent_word };
  freshness_epoch = 6;
}

dispenses :
    handle_sign_faucet_dispense toy_curve dispense_request funded
    ≡ done (sign_faucet_dispense dispense_signed dispense_candidate (9 ∷ []))
unfolding handle_sign_faucet_dispense encode be_bytes be_value bytes_lt is_utf8
dispenses = refl

handle_sign_faucet_dispense_spends_example :
    (d : Dispensed toy_curve dispense_request funded dispense_signed dispense_candidate) × Debited
      funded.faucet dispense_candidate.faucet d.amount d.req.fields.gas_limit d.gas_price
    × (be_value d.amount ≡ be_value d.req.fields.value_be)
    × (be_value d.gas_price ≡ be_value d.req.fields.gas_price_be)
handle_sign_faucet_dispense_spends_example =
    handle_sign_faucet_dispense_spends toy_curve dispense_request funded dispense_signed
      dispense_candidate (9 ∷ []) dispense_map faucet-IsFaucet refl dispense_map-ByteStrings
      dispenses
