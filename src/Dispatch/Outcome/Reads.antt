-- ===== src/Dispatch/Outcome/Reads.antt =====
-- The handlers of agent_dispatch.rs that answer without a candidate, and those that return one.
use d_hsm.Prelude.{◌≡◌, refl, subst, Bool, true, false, ◌==◌}
use d_hsm.Prelude.Bytes.{bytes_eq}
use d_hsm.Prelude.Attempt.{done, ok_or, map_err, >>=-eq-done, ensure-done, done_inv}
use d_hsm.Keystore.Types.{KeystoreBody}
use d_hsm.Capability.Parse.{malformed, key_purpose_mismatch}
use d_hsm.Cbor.Access.{read_at, as_bytes32}
use d_hsm.Signer.Curve.{Curve, eth_address}
use d_hsm.Signer.Transfer
use d_hsm.Signer.Identity.{find_entry, public_identity_from_entry, sign_identity_proof}
use d_hsm.Dispatch.Types.{
  AgentEnvelope, AgentResponse, public_identity, prove_identity, sign_transfer, generate_keys,
  sign_faucet_dispense, configure_treasury, entry_count, is_transfer,
}
use d_hsm.Dispatch.Identity.{load_keypair_for, handle_public_identity, handle_prove_identity}
use d_hsm.Dispatch.Payload.{transfer_request, handle_sign_transfer}

-- A response without a candidate.
abbrev pub is_read : AgentResponse → Bool
is_read (public_identity id) = true
is_read (prove_identity proof) = true
is_read (sign_transfer t) = true
is_read (generate_keys keys y request_id) = false
is_read (sign_faucet_dispense signed y request_id) = false
is_read (configure_treasury y request_id) = false

module _ (k : Curve) (env : AgentEnvelope) (x : KeystoreBody) (r : AgentResponse) where
  pub public_identity_reads : handle_public_identity k env x ≡ done r → is_read r ≡ true
  unfolding handle_public_identity
  public_identity_reads h =
      let (key_ref, e0, h0) = >>=-eq-done (ok_or env.key_ref malformed) _ h in
      let (entry, e1, h1) = >>=-eq-done (ok_or (find_entry x key_ref) key_purpose_mismatch) _ h0 in
      let (identity, e2, h2) =
        >>=-eq-done (map_err (λ _. key_purpose_mismatch) (public_identity_from_entry k entry)) _
          h1 in
      subst (λ s. is_read s ≡ true) (done_inv h2) refl

  pub prove_identity_reads : handle_prove_identity k env x ≡ done r → is_read r ≡ true
  unfolding handle_prove_identity
  prove_identity_reads h =
      let (key_ref, e0, h0) = >>=-eq-done (ok_or env.key_ref malformed) _ h in
      let (payload, e1, h1) = >>=-eq-done (ok_or env.payload malformed) _ h0 in
      let (one, h2) = ensure-done (entry_count payload == 1) malformed _ h1 in
      let (nonce, e3, h3) = >>=-eq-done (ok_or (read_at as_bytes32 payload 1) malformed) _ h2 in
      let (entry, e4, h4) = >>=-eq-done (ok_or (find_entry x key_ref) key_purpose_mismatch) _ h3 in
      let (keypair, e5, h5) = >>=-eq-done (load_keypair_for k entry) _ h4 in
      let (proof, e6, h6) =
        >>=-eq-done
          (map_err (λ _. key_purpose_mismatch)
            (sign_identity_proof k keypair x.config.twod_chain_id x.config.environment_identifier
              key_ref nonce))
          _ h5 in
      subst (λ s. is_read s ≡ true) (done_inv h6) refl

  pub sign_transfer_reads : handle_sign_transfer k env x ≡ done r → is_read r ≡ true
  unfolding handle_sign_transfer
  sign_transfer_reads h =
      let (key_ref, e0, h0) = >>=-eq-done (ok_or env.key_ref malformed) _ h in
      let (payload, e1, h1) = >>=-eq-done (ok_or env.payload malformed) _ h0 in
      let (req, e2, h2) = >>=-eq-done (transfer_request payload x.config.twod_chain_id) _ h1 in
      let (entry, e3, h3) = >>=-eq-done (ok_or (find_entry x key_ref) key_purpose_mismatch) _ h2 in
      let (transfer, h4) = ensure-done (is_transfer entry.purpose) key_purpose_mismatch _ h3 in
      let (keypair, e5, h5) = >>=-eq-done (load_keypair_for k entry) _ h4 in
      let (own, h6) =
        ensure-done (bytes_eq req.from (eth_address k keypair)) key_purpose_mismatch _ h5 in
      let (signed, e7, h7) =
        >>=-eq-done
          (map_err (λ _. key_purpose_mismatch) (Transfer.sign_transfer k keypair req.fields)) _
          h6 in
      subst (λ s. is_read s ≡ true) (done_inv h7) refl
