-- ===== src/Signer/Keygen.antt =====
-- agent_keygen.rs. `getrandom n` fills `n` bytes; the hash set of references is the list of what
-- was put in.
pub mod Fresh
use d_hsm.Prelude.{
  ℕ, zero, suc, ◌+◌, List, [], ◌∷◌, ◌++◌, map, Bool, true, false, not, ◌&&◌, ◌||◌, Option, none,
  some, ltb, ◌==◌, if◌then◌else◌, length,
}
use d_hsm.Prelude.Bytes.{bytes_eq}
use d_hsm.Prelude.Attempt.{Attempt, done, failed, ensure}
use d_hsm.Prelude.Action.{Action, lift, ◌>>=◌, ◌>>◌}
use d_hsm.Keystore.Types.{
  KeystoreBody, KeyEntry, KeyPurpose, agent_faucet_treasury_k1, agent_transfer_k1, secp256k1,
  CreationMetadata, max_total_key_entries,
}
use d_hsm.Keystore.Validate.{contains}
use d_hsm.Signer.Curve.{
  Curve, Generated, Secp256k1Error, eth_address, tron_address_from_body, generate_with_secret,
}

pub data GenerateKeysError : Type 0 where
  invalid_count treasury_exists capacity_exceeded csprng : GenerateKeysError

pub record GeneratedKey : Type 0 where
  pub key_ref : List ℕ
  pub pubkey_uncompressed : List ℕ
  pub eth_address : List ℕ
  pub tron_address : List ℕ
  pub key_purpose : KeyPurpose

-- What one round of the loop pushes.
pub record Minted : Type 0 where
  pub staged : KeyEntry
  pub generated : GeneratedKey

-- The body with the keys appended, and the keys.
pub record Batch : Type 0 where
  pub candidate : KeystoreBody
  pub keys : List GeneratedKey

abbrev pub rng_retries : ℕ
rng_retries = 8

abbrev pub max_batch_size : ℕ
max_batch_size = 256

abbrev pub is_treasury : KeyPurpose → Bool
is_treasury agent_faucet_treasury_k1 = true
is_treasury agent_transfer_k1 = false

-- The count rules.
abbrev pub count_ok : KeyPurpose → ℕ → Bool
count_ok agent_faucet_treasury_k1 count = count == 1
count_ok agent_transfer_k1 count = not (count == 0)

unfoldable pub has_treasury : List KeyEntry → Bool
has_treasury [] = false
has_treasury (e ∷ es) = is_treasury e.purpose || has_treasury es

abbrev pub key_refs : List KeyEntry → List (List ℕ)
key_refs = map λ e. e.key_ref

abbrev pub csprng_failed {ℓ} : {A : Type ℓ} → Attempt Secp256k1Error A → Attempt GenerateKeysError A
csprng_failed (done a) = done a
csprng_failed (failed e) = failed csprng

abbrev pub mint : Curve → KeyPurpose → CreationMetadata → List ℕ → Generated → Minted
mint k purpose creation key_ref g =
    let address = eth_address k g.keypair in
    record {
      staged = record {
        key_ref = key_ref;
        purpose = purpose;
        algorithm = secp256k1;
        public_identity = g.keypair.verifying_key;
        secret_scalar = g.secret;
        creation_metadata = creation;
        backup_export_metadata = record { last_exported_seq = 0 };
      };
      generated = record {
        key_ref = key_ref;
        pubkey_uncompressed = g.keypair.verifying_key;
        eth_address = address;
        tron_address = tron_address_from_body k address;
        key_purpose = purpose;
      };
    }

module _ {W : Type 0} (k : Curve) (getrandom : ℕ → W → Option (List ℕ) × W) where
  -- The inner loop, with `n` draws left.
  unfoldable pub draw_key_ref : ℕ → List (List ℕ) → Action W GenerateKeysError (List ℕ)
  unfolding bytes_eq
  draw_key_ref zero seen w = (failed csprng, w)
  draw_key_ref (suc n) seen w =
      let (drawn, w1) = getrandom 32 w in
      elim drawn [
        | none ↦ (failed csprng, w1)
        | some key_ref ↦ elim (contains seen key_ref) [
          | true ↦ draw_key_ref n seen w1
          | false ↦ (done key_ref, w1)
        ]
      ]

  -- The key pair of a round.
  unfoldable pub draw_pair : Action W GenerateKeysError Generated
  unfolding generate_with_secret
  draw_pair w = let (g, w1) = generate_with_secret k getrandom w in (csprng_failed g, w1)

  -- The loop over the keys, with `n` rounds left.
  unfoldable pub mint_keys :
      KeyPurpose → CreationMetadata → ℕ → List (List ℕ) → Action W GenerateKeysError (List Minted)
  unfolding draw_key_ref draw_pair tron_address_from_body
  mint_keys purpose creation zero seen = lift (done [])
  mint_keys purpose creation (suc n) seen = do
    key_ref ← draw_key_ref rng_retries seen
    g ← draw_pair
    rest ← mint_keys purpose creation n (key_ref ∷ seen)
    lift (done (mint k purpose creation key_ref g ∷ rest))

  unfoldable pub generate_keys :
      KeystoreBody → KeyPurpose → ℕ → CreationMetadata → Action W GenerateKeysError Batch
  unfolding has_treasury mint_keys
  generate_keys body purpose count creation = do
    lift (ensure (count_ok purpose count) invalid_count)
    lift (ensure (not (is_treasury purpose && has_treasury body.entries)) treasury_exists)
    lift (
        ensure
          (not
            (ltb max_batch_size count || ltb max_total_key_entries (length body.entries + count)))
          capacity_exceeded)
    minted ← mint_keys purpose creation count (key_refs body.entries)
    lift (
        done (record {
          candidate = record body { entries = body.entries ++ map (λ m. m.staged) minted };
          keys = map (λ m. m.generated) minted;
        }))
