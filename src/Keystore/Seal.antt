-- ===== src/Keystore/Seal.antt =====
-- The sealed keystore of agent_keystore.rs: `seal_keystore_with_nonce`, `unseal_keystore` and
-- `unseal_body`. XChaCha20Poly1305 and ciborium's serde are the record `Sealer`.
pub mod Body
pub mod Drawn
pub mod Kept
pub mod RoundTrip
use d_hsm.Prelude.{ℕ, ◌+◌, List, [], ◌∷◌, ◌++◌, not, Option, ltb, ◌==◌, length, take, drop}
use d_hsm.Prelude.Bytes.{be_bytes, bytes_eq}
use d_hsm.Prelude.Attempt.{Attempt, done, failed, ensure, ok_or, ◌>>=◌, ◌>>◌}
use d_hsm.Crypto.{Crypto}
use d_hsm.Keystore.Types.{
  KeystoreBody, KeystoreError, Result, ok, err, empty_measurement, too_short, bad_magic,
  unsupported_version, measurement_mismatch, encrypt, decrypt, cbor,
}
use d_hsm.Keystore.Validate.{validate}

pub record Sealer : Type 0 where
  -- Key, nonce, associated data and message.
  pub aead_encrypt : List ℕ → List ℕ → List ℕ → List ℕ → Option (List ℕ)
  pub aead_decrypt : List ℕ → List ℕ → List ℕ → List ℕ → Option (List ℕ)
  -- `into_writer`, and `from_reader` with the position that it ended at.
  pub write_body : KeystoreBody → List ℕ
  pub read_body : List ℕ → Option (KeystoreBody × ℕ)

abbrev pub keystore_magic : List ℕ
keystore_magic = b'2' ∷ b'D' ∷ b'A' ∷ b'G' ∷ b'T' ∷ b'K' ∷ b'S' ∷ 0 ∷ []

abbrev pub keystore_format_version : ℕ
keystore_format_version = 4

abbrev pub meas_digest_domain : List ℕ
meas_digest_domain =
    b'2' ∷ b'd' ∷ b'-' ∷ b'h' ∷ b's' ∷ b'm' ∷ b'-' ∷ b'a' ∷ b'g' ∷ b'e' ∷ b'n' ∷ b't' ∷ b'-' ∷ b'k'
    ∷ b'e' ∷ b'y' ∷ b's' ∷ b't' ∷ b'o' ∷ b'r' ∷ b'e' ∷ b'-' ∷ b'v' ∷ b'1' ∷ b'-' ∷ b'm' ∷ b'e'
    ∷ b'a' ∷ b's' ∷ []

abbrev pub aead_key_domain : List ℕ
aead_key_domain =
    b'2' ∷ b'd' ∷ b'-' ∷ b'h' ∷ b's' ∷ b'm' ∷ b'-' ∷ b'a' ∷ b'g' ∷ b'e' ∷ b'n' ∷ b't' ∷ b'-' ∷ b'k'
    ∷ b'e' ∷ b'y' ∷ b's' ∷ b't' ∷ b'o' ∷ b'r' ∷ b'e' ∷ b'-' ∷ b'v' ∷ b'1' ∷ b'-' ∷ b'k' ∷ b'e'
    ∷ b'y' ∷ []

abbrev pub aad_len : ℕ
aad_len = 42

abbrev pub header_len : ℕ
header_len = 66

abbrev pub tag_len : ℕ
tag_len = 16

-- 1 MiB less 1 KiB.
abbrev pub max_keystore_blob_size : ℕ
max_keystore_blob_size = 1047552

abbrev pub measurement_digest : Crypto → List ℕ → List ℕ
measurement_digest c enclave_measurement = c.sha3_256 (meas_digest_domain ++ enclave_measurement)

abbrev pub derive_aead_key : Crypto → List ℕ → List ℕ → List ℕ
derive_aead_key c provisioning_root meas_digest =
    c.sha3_256 (aead_key_domain ++ (provisioning_root ++ meas_digest))

-- The header without the nonce.
abbrev pub aad : List ℕ → List ℕ
aad meas_digest = keystore_magic ++ (be_bytes 2 keystore_format_version ++ meas_digest)

-- A cipher key of 32 bytes is always taken (`AeadKey` is for other lengths).
unfoldable pub seal_keystore_with_nonce :
    Crypto → Sealer → List ℕ → List ℕ → List ℕ → List ℕ → Attempt KeystoreError (List ℕ)
unfolding be_bytes
seal_keystore_with_nonce c s body provisioning_root enclave_measurement nonce = do
  ensure (not (length enclave_measurement == 0)) empty_measurement
  let meas_digest = measurement_digest c enclave_measurement
  let key = derive_aead_key c provisioning_root meas_digest
  ct ← ok_or (s.aead_encrypt key nonce (aad meas_digest) body) encrypt
  done (aad meas_digest ++ (nonce ++ ct))

unfoldable pub unseal_keystore :
    Crypto → Sealer → List ℕ → List ℕ → List ℕ → Attempt KeystoreError (List ℕ)
unfolding be_bytes bytes_eq
unseal_keystore c s blob provisioning_root enclave_measurement = do
  ensure (not (length enclave_measurement == 0)) empty_measurement
  ensure (not (ltb (length blob) (header_len + tag_len))) too_short
  ensure (bytes_eq (take 8 blob) keystore_magic) bad_magic
  ensure (bytes_eq (take 2 (drop 8 blob)) (be_bytes 2 keystore_format_version)) unsupported_version
  let expected_meas = measurement_digest c enclave_measurement
  ensure (bytes_eq (take 32 (drop 10 blob)) expected_meas) measurement_mismatch
  let key = derive_aead_key c provisioning_root expected_meas
  ok_or
      (s.aead_decrypt key (take 24 (drop aad_len blob)) (take aad_len blob) (drop header_len blob))
      decrypt

-- `validate()?`.
abbrev pub validated : Result (Unit {0}) → Attempt KeystoreError (Unit {0})
validated (ok u) = done u
validated (err e) = failed e

unfoldable pub unseal_body :
    Crypto → Sealer → List ℕ → List ℕ → List ℕ → Attempt KeystoreError KeystoreBody
unfolding validate unseal_keystore
unseal_body c s blob provisioning_root enclave_measurement = do
  encoded ← unseal_keystore c s blob provisioning_root enclave_measurement
  (body, position) ← ok_or (s.read_body encoded) cbor
  ensure (position == length encoded) cbor
  validated (validate body)
  done body
