-- ===== src/Signer/Keygen/Fresh.antt =====
-- `generate_keys` of agent_keygen.rs: a body before and after it.
use d_hsm.Prelude.{
  ℕ, zero, suc, ◌+◌, ◌≤◌, ◌≡◌, refl, ap, subst, List, [], ◌∷◌, ◌++◌, map, true, false, not,
  not-eq_true, ◌&&◌, ◌||◌, or-eq_false, Option, none, some, ltb, le_of_ltb, length, All, Bool-cases,
  inl, inr,
}
use d_hsm.Prelude.Attempt.{Attempt, done, failed, ensure, ensure-true, done_inv}
use d_hsm.Prelude.Action.{>>=-eq-done}
use d_hsm.Keystore.Types.{KeystoreBody, KeyPurpose, CreationMetadata, max_total_key_entries}
use d_hsm.Keystore.Validate.{contains}
use d_hsm.Signer.Curve.{Curve, Secp256k1Error, Generated}
use d_hsm.Signer.Keygen.{
  Minted, Batch, GenerateKeysError, csprng, invalid_count, treasury_exists, capacity_exceeded,
  is_treasury, count_ok, has_treasury, key_refs, max_batch_size, rng_retries, draw_key_ref,
  draw_pair, csprng_failed, mint_keys, generate_keys,
}

-- Each reference is in neither the list before it nor `seen`.
abbrev pub Fresh : List (List ℕ) → List Minted → Type 0
Fresh seen [] = Unit
Fresh seen (m ∷ ms) = (contains seen m.staged.key_ref ≡ false) × Fresh (m.staged.key_ref ∷ seen) ms

-- What a round makes: the entry and the answer are of one key.
pub record IsMinted (purpose : KeyPurpose) (creation : CreationMetadata) (m : Minted) : Type 0 where
  pub purpose_eq : m.staged.purpose ≡ purpose
  pub creation_eq : m.staged.creation_metadata ≡ creation
  pub same_ref : m.generated.key_ref ≡ m.staged.key_ref
  pub same_point : m.generated.pubkey_uncompressed ≡ m.staged.public_identity

-- A step that succeeded, apart from its world.
done_pair {ℓ κ ι} :
    {E : Type ℓ} {A : Type κ} {W : Type ι} {a b : A} {v w : W}
    → ◌≡◌ {A = Attempt E A × W} (done a, v) (done b, w)
    → a ≡ b
done_pair h = done_inv (ap (λ p. p.0) h)

csprng_failed-done :
    (r : Attempt Secp256k1Error Generated) {g : Generated} → csprng_failed r ≡ done g → r ≡ done g
csprng_failed-done (done a) h = cc
csprng_failed-done (failed e) h = cc

module _ {W : Type 0} (k : Curve) (getrandom : ℕ → W → Option (List ℕ) × W) where
  abbrev Drew : Attempt GenerateKeysError (List ℕ) × W → List ℕ → W → Type 0
  Drew r key_ref w = r ≡ (done key_ref, w)

  draw_key_ref_fresh :
      (n : ℕ) (seen : List (List ℕ)) (w w' : W) (key_ref : List ℕ)
      → draw_key_ref k getrandom n seen w ≡ (done key_ref, w')
      → contains seen key_ref ≡ false
  unfolding draw_key_ref
  draw_key_ref_fresh zero seen w w' key_ref h = cc
  draw_key_ref_fresh (suc n) seen w w' key_ref h =
      go (getrandom 32 w) (λ v e. draw_key_ref_fresh n seen v w' key_ref e) h
    where
      go :
          (d : Option (List ℕ) × W)
          → ((v : W)
              → Drew (draw_key_ref k getrandom n seen v) key_ref w'
              → contains seen key_ref ≡ false)
          → Drew
              (elim d.0 [
                | none ↦ (failed csprng, d.1)
                | some r ↦ elim (contains seen r) [
                  | true ↦ draw_key_ref k getrandom n seen d.1
                  | false ↦ (done r, d.1)
                ]
              ])
              key_ref
              w'
          → contains seen key_ref ≡ false
      go (none, w1) later e = cc
      go (some r, w1) later e =
          let again = draw_key_ref k getrandom n seen w1 in
          elim (Bool-cases (contains seen r)) [
            | inl taken ↦ later w1 (
                subst (λ b. Drew (elim b [ true ↦ again | false ↦ (done r, w1) ]) key_ref w') taken
                  e)
            | inr fresh ↦
                subst (λ x. contains seen x ≡ false)
                  (done_pair (
                    subst (λ b. Drew (elim b [ true ↦ again | false ↦ (done r, w1) ]) key_ref w')
                      fresh e))
                  fresh
          ]

  mint_keys-Fresh :
      (purpose : KeyPurpose) (creation : CreationMetadata) (n : ℕ) (seen : List (List ℕ)) (w w' : W)
      (ms : List Minted)
      → mint_keys k getrandom purpose creation n seen w ≡ (done ms, w')
      → Fresh seen ms × All (IsMinted purpose creation) ms × (length ms ≡ n)
  unfolding mint_keys
  mint_keys-Fresh purpose creation zero seen w w' ms h =
      subst (λ l. Fresh seen l × All (IsMinted purpose creation) l × (length l ≡ 0)) (done_pair h)
        (tt, tt, refl)
  mint_keys-Fresh purpose creation (suc n) seen w w' ms h =
      let (key_ref, w1, e1, h1) = >>=-eq-done (draw_key_ref k getrandom rng_retries seen w) _ h in
      let (g, w2, e2, h2) = >>=-eq-done (draw_pair k getrandom w1) _ h1 in
      let (rest, w3, e3, h3) =
        >>=-eq-done (mint_keys k getrandom purpose creation n (key_ref ∷ seen) w2) _ h2 in
      let (fresh, made, len) = mint_keys-Fresh purpose creation n (key_ref ∷ seen) w2 w3 rest e3 in
      subst (λ l. Fresh seen l × All (IsMinted purpose creation) l × (length l ≡ suc n))
        (done_pair h3)
        (
          (draw_key_ref_fresh rng_retries seen w w1 key_ref e1, fresh),
          (
            record { purpose_eq = refl; creation_eq = refl; same_ref = refl; same_point = refl },
            made,
          ),
          ap suc len,
        )

  -- What a whole batch is.
  pub record Generates (body : KeystoreBody) (purpose : KeyPurpose) (count : ℕ)
      (creation : CreationMetadata) (batch : Batch) : Type 0 where
    pub minted : List Minted
    pub appended :
        batch.candidate ≡ record body { entries = body.entries ++ map (λ m. m.staged) minted }
    pub answered : batch.keys ≡ map (λ m. m.generated) minted
    pub whole : length minted ≡ count
    pub fresh : Fresh (key_refs body.entries) minted
    pub each : All (IsMinted purpose creation) minted
    pub allowed : count_ok purpose count ≡ true
    pub singleton : (is_treasury purpose && has_treasury body.entries) ≡ false
    pub batch_bound : count ≤ max_batch_size
    pub total_bound : length body.entries + count ≤ max_total_key_entries

  -- A batch that is generated appends exactly `count` keys of the purpose with references that are
  -- new and distinct, answers with those keys, and changes nothing else; a treasury key is
  -- generated alone and only where there is none, and the bounds on keys hold.
  pub generate_keys_sound :
      (body : KeystoreBody) (purpose : KeyPurpose) (count : ℕ) (creation : CreationMetadata)
      (w w' : W) (batch : Batch)
      → generate_keys k getrandom body purpose count creation w ≡ (done batch, w')
      → Generates body purpose count creation batch
  unfolding generate_keys
  generate_keys_sound body purpose count creation w w' batch h =
      let (u0, w0, e0, h0) = >>=-eq-done (ensure (count_ok purpose count) invalid_count, w) _ h in
      let (u1, w1, e1, h1) =
        >>=-eq-done
          (ensure (not (is_treasury purpose && has_treasury body.entries)) treasury_exists, w0) _
          h0 in
      let too_many =
        ltb max_batch_size count || ltb max_total_key_entries (length body.entries + count) in
      let (u2, w2, e2, h2) = >>=-eq-done (ensure (not too_many) capacity_exceeded, w1) _ h1 in
      let (minted, w3, e3, h3) =
        >>=-eq-done (mint_keys k getrandom purpose creation count (key_refs body.entries) w2) _
          h2 in
      let (fresh, made, len) =
        mint_keys-Fresh purpose creation count (key_refs body.entries) w2 w3 minted e3 in
      let room =
        not-eq_true too_many (ensure-true (not too_many) capacity_exceeded (ap (λ p. p.0) e2)) in
      let (batch_room, total_room) =
        or-eq_false (ltb max_batch_size count)
          (ltb max_total_key_entries (length body.entries + count)) room in
      subst (Generates body purpose count creation) (done_pair h3) (record {
        minted = minted;
        appended = refl;
        answered = refl;
        whole = len;
        fresh = fresh;
        each = made;
        allowed = ensure-true (count_ok purpose count) invalid_count (ap (λ p. p.0) e0);
        singleton = not-eq_true (is_treasury purpose && has_treasury body.entries) (
            ensure-true (not (is_treasury purpose && has_treasury body.entries)) treasury_exists
              (ap (λ p. p.0) e1));
        batch_bound = le_of_ltb max_batch_size count batch_room;
        total_bound = le_of_ltb max_total_key_entries (length body.entries + count) total_room;
      })
