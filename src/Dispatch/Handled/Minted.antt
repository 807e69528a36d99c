-- ===== src/Dispatch/Handled/Minted.antt =====
-- `handle_generate_keys` of agent_dispatch.rs: what an accepted command is, and the candidate.
use d_hsm.Prelude.{
  ℕ, ◌≡◌, refl, sym, ap, subst, List, map, not, ◌&&◌, not-eq_true, false, Option, none, some, ◌==◌,
  ==_iff, arith,
}
use d_hsm.Prelude.Attempt.{
  Attempt, done, ok_or, ensure, ensure-done, ok_or-done, map_err, map_err-done, done_inv,
}
use d_hsm.Prelude.Attempt
use d_hsm.Prelude.Action.{>>=-eq-done}
use d_hsm.Crypto.{Crypto, IsCtEq}
use d_hsm.Cbor.Value.{Entries}
use d_hsm.Cbor.Access.{read_at, as_u64}
use d_hsm.Keystore.Types.{KeystoreBody, KeyPurpose}
use d_hsm.Keystore.Grows.{Grows, Grows-trans}
use d_hsm.Capability.Parse.{malformed, key_purpose_mismatch, capability_rejected}
use d_hsm.Capability.Verify.{VerifiedCapability, payload_binding}
use d_hsm.Signer.Curve.{Curve}
use d_hsm.Signer.Keygen.{GeneratedKey, Batch, is_treasury}
use d_hsm.Signer.Keygen
use d_hsm.Signer.Keygen.Fresh.{Generates, generate_keys_sound}
use d_hsm.Dispatch.Types.{AgentEnvelope, generate_keys, entry_count}
use d_hsm.Dispatch.Privileged.{finish_generate}
use d_hsm.Dispatch.Mint.{minting, handle_generate_keys}
use d_hsm.Dispatch.Generate.{
  GenerateRequest, generate_request, generate_keys_canonical_params, purpose_of, creation_of,
  map_keygen_error,
}
use d_hsm.Dispatch.Handled.Tail.{finish_generate-Grows}

outcome_of {ℓ κ ι} :
    {E : Type ℓ} {A : Type κ} {W : Type ι} {r : Attempt E A} {a : A} {v w : W}
    → ◌≡◌ {A = Attempt E A × W} (r, v) (done a, w)
    → r ≡ done a
outcome_of h = ap (λ p. p.0) h

-- What the checks of a generation let pass.
pub record Asked (k : Curve) (env : AgentEnvelope) (v : VerifiedCapability) (req : GenerateRequest)
    : Type 0 where
  pub payload : Entries
  pub sent : env.payload ≡ some payload
  pub code : ℕ
  pub code_sent : read_at as_u64 payload 1 ≡ some code
  pub count_sent : read_at as_u64 payload 2 ≡ some req.count
  pub purpose_sent : purpose_of code ≡ done req.purpose
  pub granted_purpose : v.key_purpose ≡ code
  pub bound :
      payload_binding k.keccak256 env.opcode none env.request_id
        (generate_keys_canonical_params code req.count)
      ≡ v.payload_binding
  pub treasury_scoped : (is_treasury req.purpose && not (v.scope_class == 0)) ≡ false

generate_request-Asked :
    (c : Crypto) (k : Curve) (env : AgentEnvelope) (v : VerifiedCapability) (req : GenerateRequest)
    → IsCtEq c
    → generate_request c k env v ≡ done req
    → Asked k env v req
unfolding generate_request
generate_request-Asked c k env v req ct h =
    let (payload, e0, h0) = Attempt.>>=-eq-done (ok_or env.payload malformed) _ h in
    let (two, h1) = ensure-done (entry_count payload == 2) malformed _ h0 in
    let (code, e2, h2) = Attempt.>>=-eq-done (ok_or (read_at as_u64 payload 1) malformed) _ h1 in
    let (count, e3, h3) = Attempt.>>=-eq-done (ok_or (read_at as_u64 payload 2) malformed) _ h2 in
    let (purpose, e4, h4) = Attempt.>>=-eq-done (purpose_of code) _ h3 in
    let (granted, h5) = ensure-done (v.key_purpose == code) key_purpose_mismatch _ h4 in
    let computed =
      payload_binding k.keccak256 env.opcode none env.request_id
        (generate_keys_canonical_params code count) in
    let (bound, h6) = ensure-done (c.ct_eq computed v.payload_binding) capability_rejected _ h5 in
    let unscoped = is_treasury purpose && not (v.scope_class == 0) in
    let (scoped, h7) = ensure-done (not unscoped) capability_rejected _ h6 in
    subst (Asked k env v) (done_inv h7) (record {
      payload = payload;
      sent = ok_or-done env.payload malformed e0;
      code = code;
      code_sent = ok_or-done (read_at as_u64 payload 1) malformed e2;
      count_sent = ok_or-done (read_at as_u64 payload 2) malformed e3;
      purpose_sent = e4;
      granted_purpose = (==_iff v.key_purpose code).0 granted;
      bound = (ct.exact computed v.payload_binding).0 bound;
      treasury_scoped = not-eq_true unscoped scoped;
    })

minted_inv :
    (keys keys' : List GeneratedKey) (y y' : KeystoreBody) (r r' : List ℕ)
    → generate_keys keys y r ≡ generate_keys keys' y' r'
    → (keys ≡ keys') × (y ≡ y')
minted_inv keys keys' y y' r r' h = (cc, cc)

module _ {W : Type 0} (c : Crypto) (k : Curve) (getrandom : ℕ → W → Option (List ℕ) × W) where
  -- What an accepted generation is.
  pub record MintedFor (env : AgentEnvelope) (x : KeystoreBody) (v : VerifiedCapability)
      (keys : List GeneratedKey) (y : KeystoreBody) : Type 0 where
    pub req : GenerateRequest
    pub asked : Asked k env v req
    pub batch : Batch
    pub generates : Generates k getrandom x req.purpose req.count (creation_of x v) batch
    pub answered : keys ≡ batch.keys
    pub finished : finish_generate env v batch.candidate ≡ done y

  minting-Generates :
      (x : KeystoreBody) (purpose : KeyPurpose) (count : ℕ) (v : VerifiedCapability) (w w' : W)
      (batch : Batch)
      → minting c k getrandom x purpose count (creation_of x v) w ≡ (done batch, w')
      → Generates k getrandom x purpose count (creation_of x v) batch
  minting-Generates x purpose count v w w' batch h =
      let r = Keygen.generate_keys k getrandom x purpose count (creation_of x v) w in
      let same : r.0 ≡ done batch = map_err-done map_keygen_error r.0 (ap (λ p. p.0) h) in
      generate_keys_sound k getrandom x purpose count (creation_of x v) w r.1 batch
        (ap (λ o. (o, r.1)) same)

  -- Where `ct_eq` is equality, an accepted generation was granted for its purpose and for exactly
  -- this purpose and count, a treasury key for this enclave alone; the candidate is the body with
  -- the new batch, and then counted, committed and audited.
  pub handle_generate_keys_sound :
      (env : AgentEnvelope) (x : KeystoreBody) (v : VerifiedCapability) (keys : List GeneratedKey)
      (y : KeystoreBody) (request_id : List ℕ) (w w' : W)
      → IsCtEq c
      → handle_generate_keys c k getrandom env x v w ≡ (done (generate_keys keys y request_id), w')
      → MintedFor env x v keys y
  unfolding handle_generate_keys
  handle_generate_keys_sound env x v keys y request_id w w' ct h =
      let (req, w0, e0, h0) = >>=-eq-done (generate_request c k env v, w) _ h in
      let (batch, w1, e1, h1) =
        >>=-eq-done (minting c k getrandom x req.purpose req.count (creation_of x v) w0) _ h0 in
      let (candidate, w2, e2, h2) = >>=-eq-done (finish_generate env v batch.candidate, w1) _ h1 in
      let (same_keys, same_body) =
        minted_inv batch.keys keys candidate y env.request_id request_id
          (done_inv (outcome_of h2)) in
      record {
        req = req;
        asked = generate_request-Asked c k env v req ct (outcome_of e0);
        batch = batch;
        generates = minting-Generates x req.purpose req.count v w0 w1 batch e1;
        answered = sym same_keys;
        finished =
            subst (λ z. finish_generate env v batch.candidate ≡ done z) same_body (outcome_of e2);
      }

  batch-Grows :
      (x : KeystoreBody) (purpose : KeyPurpose) (count : ℕ) (v : VerifiedCapability) (batch : Batch)
      → Generates k getrandom x purpose count (creation_of x v) batch
      → Grows 0 x batch.candidate
  batch-Grows x purpose count v batch g = subst (Grows 0 x) (sym g.appended) (record {
    epoch = omega arith;
    structural = omega arith;
    identity = refl;
    version = omega arith;
    recovery = omega arith;
    keys = (map (λ m. m.staged) g.minted, refl);
    counters = λ r. omega arith;
    audit_end = omega arith;
  })

  pub MintedFor-Grows :
      (env : AgentEnvelope) (x : KeystoreBody) (v : VerifiedCapability) (keys : List GeneratedKey)
      (y : KeystoreBody)
      → MintedFor env x v keys y
      → Grows 1 x y
  MintedFor-Grows env x v keys y m =
      Grows-trans 0 1 x m.batch.candidate y
        (batch-Grows x m.req.purpose m.req.count v m.batch m.generates)
        (finish_generate-Grows env v m.batch.candidate y m.finished)
