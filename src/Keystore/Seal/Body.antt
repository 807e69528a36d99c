-- ===== src/Keystore/Seal/Body.antt =====
-- `seal_body` and `seal_keystore` of agent_keystore.rs, which draw the nonce. ciborium's writer
-- into memory does not fail, and its two passes write the same bytes.
use d_hsm.Prelude.{ℕ, ◌+◌, List, not, Option, ltb, length}
use d_hsm.Prelude.Attempt.{ensure, ok_or}
use d_hsm.Prelude.Action.{Action, lift, ◌>>=◌, ◌>>◌}
use d_hsm.Crypto.{Crypto}
use d_hsm.Keystore.Types.{KeystoreBody, KeystoreError, csprng, blob_too_large}
use d_hsm.Keystore.Validate.{validate}
use d_hsm.Keystore.Seal.{
  Sealer, seal_keystore_with_nonce, validated, header_len, tag_len, max_keystore_blob_size,
}

module _ {W : Type 0} (c : Crypto) (s : Sealer) (getrandom : ℕ → W → Option (List ℕ) × W) where
  -- `getrandom(&mut nonce).map_err(|_| KeystoreError::Csprng)?`.
  abbrev pub draw_nonce : Action W KeystoreError (List ℕ)
  draw_nonce w = let (drawn, w1) = getrandom 24 w in (ok_or drawn csprng, w1)

  unfoldable pub seal_keystore : List ℕ → List ℕ → List ℕ → Action W KeystoreError (List ℕ)
  unfolding seal_keystore_with_nonce
  seal_keystore body provisioning_root enclave_measurement = do
    nonce ← draw_nonce
    lift (seal_keystore_with_nonce c s body provisioning_root enclave_measurement nonce)

  unfoldable pub seal_body : KeystoreBody → List ℕ → List ℕ → Action W KeystoreError (List ℕ)
  unfolding validate seal_keystore
  seal_body body provisioning_root enclave_measurement = do
    lift (validated (validate body))
    let encoded = s.write_body body
    lift (
        ensure (not (ltb max_keystore_blob_size (header_len + length encoded + tag_len)))
          blob_too_large)
    seal_keystore encoded provisioning_root enclave_measurement
