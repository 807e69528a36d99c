-- ===== src/Dispatch/Outcome/Shapes.antt =====
-- The handlers of agent_dispatch.rs that return a candidate: the response is keyed by the
-- identifier of the request.
use d_hsm.Prelude.{ℕ, ◌≡◌, sym, ap, List, some, Option, ◌==◌, false}
use d_hsm.Prelude.Attempt.{done, ok_or, map_err, >>=-eq-done, ensure-done, done_inv}
use d_hsm.Prelude.Action
use d_hsm.Crypto.{Crypto}
use d_hsm.U256.{from_minimal_be}
use d_hsm.Keystore.Types.{KeystoreBody}
use d_hsm.Keystore.Faucet.{accept_and_debit}
use d_hsm.Keystore.Epoch.{advance_commit_epoch}
use d_hsm.Capability.Parse.{malformed, key_purpose_mismatch, capability_rejected}
use d_hsm.Capability.Verify.{VerifiedCapability, payload_binding}
use d_hsm.Cbor.Access.{read_at, as_u8}
use d_hsm.Signer.Curve.{Curve, Keypair}
use d_hsm.Signer.Transfer.{EthTransferFields, SignedTransfer, sign_transfer}
use d_hsm.Signer.Keygen.{GeneratedKey}
use d_hsm.Dispatch.Types.{
  AgentEnvelope, AgentResponse, generate_keys, sign_faucet_dispense, configure_treasury,
  or_seal_failed,
}
use d_hsm.Dispatch.Privileged.{finish_generate, finish_configure}
use d_hsm.Dispatch.Generate.{generate_request, creation_of}
use d_hsm.Dispatch.Mint.{minting, handle_generate_keys}
use d_hsm.Dispatch.Treasury.{read_command, is_sub_op, apply_params, handle_configure_treasury}
use d_hsm.Dispatch.Payload.{transfer_request}
use d_hsm.Dispatch.Faucet.{
  within_caps, treasury_signer, debit_and_sign, handle_sign_faucet_dispense,
}

module _ (k : Curve) (env : AgentEnvelope) (x : KeystoreBody) (r : AgentResponse) where
  abbrev pub IsDispense : Type 0
  IsDispense =
      (signed : SignedTransfer) × (y : KeystoreBody) × (r
        ≡ sign_faucet_dispense signed y env.request_id)

  debit_and_sign_shape :
      (keypair : Keypair) (fields : EthTransferFields) (amount gas_price : List ℕ)
      → debit_and_sign k env x keypair fields amount gas_price ≡ done r
      → IsDispense
  unfolding debit_and_sign
  debit_and_sign_shape keypair fields amount gas_price h =
      let (f, e0, h0) =
        >>=-eq-done (within_caps (accept_and_debit x.faucet amount fields.gas_limit gas_price)) _
          h in
      let (tx, e1, h1) =
        >>=-eq-done (map_err (λ _. key_purpose_mismatch) (sign_transfer k keypair fields)) _ h0 in
      let (candidate, e2, h2) =
        >>=-eq-done (or_seal_failed (advance_commit_epoch (record x { faucet = f }) false)) _ h1 in
      (tx, candidate, sym (done_inv h2))

  pub dispense_shape : handle_sign_faucet_dispense k env x ≡ done r → IsDispense
  unfolding handle_sign_faucet_dispense
  dispense_shape h =
      let (key_ref, e0, h0) = >>=-eq-done (ok_or env.key_ref malformed) _ h in
      let (payload, e1, h1) = >>=-eq-done (ok_or env.payload malformed) _ h0 in
      let (req, e2, h2) = >>=-eq-done (transfer_request payload x.config.twod_chain_id) _ h1 in
      let (amount, e3, h3) =
        >>=-eq-done (ok_or (from_minimal_be req.fields.value_be) malformed) _ h2 in
      let (price, e4, h4) =
        >>=-eq-done (ok_or (from_minimal_be req.fields.gas_price_be) malformed) _ h3 in
      let (keypair, e5, h5) = >>=-eq-done (treasury_signer k x key_ref req) _ h4 in
      debit_and_sign_shape keypair req.fields amount price h5

  pub configure_shape :
      (c : Crypto) (v : VerifiedCapability)
      → handle_configure_treasury c k env x v ≡ done r
      → (y : KeystoreBody) × (r ≡ configure_treasury y env.request_id)
  unfolding handle_configure_treasury
  configure_shape c v h =
      let (payload, e0, h0) = >>=-eq-done (ok_or env.payload malformed) _ h in
      let (sub_op, e1, h1) = >>=-eq-done (ok_or (read_at as_u8 payload 1) malformed) _ h0 in
      let (command, e2, h2) = >>=-eq-done (read_command sub_op payload) _ h1 in
      let (granted, h3) =
        ensure-done (is_sub_op v.treasury_sub_op sub_op) capability_rejected _ h2 in
      let computed =
        payload_binding k.keccak256 env.opcode (some sub_op) env.request_id
          command.canonical_params in
      let (bound, h4) = ensure-done (c.ct_eq computed v.payload_binding) capability_rejected _ h3 in
      let (scoped, h5) = ensure-done (v.scope_class == 0) capability_rejected _ h4 in
      let (mutated, e6, h6) = >>=-eq-done (apply_params command.params x) _ h5 in
      let (candidate, e7, h7) = >>=-eq-done (finish_configure env v sub_op mutated) _ h6 in
      (candidate, sym (done_inv h7))

module _ {W : Type 0} (c : Crypto) (k : Curve) (getrandom : ℕ → W → Option (List ℕ) × W) where
  pub generate_shape :
      (env : AgentEnvelope) (x : KeystoreBody) (v : VerifiedCapability) (r : AgentResponse)
      (w w' : W)
      → handle_generate_keys c k getrandom env x v w ≡ (done r, w')
      → (keys : List GeneratedKey) × (y : KeystoreBody) × (r ≡ generate_keys keys y env.request_id)
  unfolding handle_generate_keys
  generate_shape env x v r w w' h =
      let (req, w0, e0, h0) = Action.>>=-eq-done (generate_request c k env v, w) _ h in
      let (batch, w1, e1, h1) =
        Action.>>=-eq-done (minting c k getrandom x req.purpose req.count (creation_of x v) w0) _
          h0 in
      let (candidate, w2, e2, h2) =
        Action.>>=-eq-done (finish_generate env v batch.candidate, w1) _ h1 in
      (batch.keys, candidate, sym (done_inv (ap (λ p. p.0) h2)))
