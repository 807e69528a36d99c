-- ===== src/Signer/Curve.antt =====
-- secp256k1.rs. The crates k256, sha2, sha3 and bs58 are the record `Curve`; a point is its
-- uncompressed SEC1 encoding.
use d_hsm.Prelude.{
  ℕ, zero, suc, List, [], ◌∷◌, ◌++◌, Bool, false, not, Option, none, some, ltb, ◌==◌, take, drop,
}
use d_hsm.Prelude.Attempt.{Attempt, done, failed, ensure, ok_or, ◌>>=◌, ◌>>◌}

pub record Curve : Type 0 where
  pub keccak256 : List ℕ → List ℕ
  pub sha256 : List ℕ → List ℕ
  pub base58 : List ℕ → List ℕ
  -- `SigningKey::from_slice`, and the point of its verifying key.
  pub from_slice : List ℕ → Option (List ℕ)
  -- `VerifyingKey::from_sec1_bytes` is `Ok`.
  pub point_ok : List ℕ → Bool
  -- `sign_prehash_recoverable` of a secret and a hash: the 64 bytes and the recovery byte.
  pub sign_prehash_recoverable : List ℕ → List ℕ → Option (List ℕ × ℕ)
  -- `Signature::from_slice` and `RecoveryId::from_byte` are there.
  pub signature_ok : List ℕ → Bool
  pub recovery_id_ok : ℕ → Bool
  -- `VerifyingKey::recover_from_prehash` of a hash, a signature and a recovery byte.
  pub recover_from_prehash : List ℕ → List ℕ → ℕ → Option (List ℕ)

pub data Secp256k1Error : Type 0 where
  csprng invalid_secret invalid_public_key sign recover : Secp256k1Error

pub record Keypair : Type 0 where
  pub signing_key : List ℕ
  pub verifying_key : List ℕ

pub record RecoverableSignature : Type 0 where
  pub r : List ℕ
  pub s : List ℕ
  pub recovery_id : ℕ

abbrev pub sec1_uncompressed : List ℕ → Bool
sec1_uncompressed [] = false
sec1_uncompressed (b ∷ bs) = b == 0x04

abbrev pub address_from_uncompressed_xy : Curve → List ℕ → List ℕ
address_from_uncompressed_xy k pubkey65 = drop 12 (k.keccak256 (drop 1 pubkey65))

abbrev pub eth_address : Curve → Keypair → List ℕ
eth_address k kp = address_from_uncompressed_xy k kp.verifying_key

unfoldable pub from_secret_bytes : Curve → List ℕ → Attempt Secp256k1Error Keypair
from_secret_bytes k secret = do
  point ← ok_or (k.from_slice secret) invalid_secret
  done (record { signing_key = secret; verifying_key = point })

unfoldable pub sign_prehashed :
    Curve → Keypair → List ℕ → Attempt Secp256k1Error RecoverableSignature
sign_prehashed k kp hash32 = do
  (bytes, rid) ← ok_or (k.sign_prehash_recoverable kp.signing_key hash32) sign
  ensure (not (ltb 1 rid)) sign
  done (record { r = take 32 bytes; s = drop 32 bytes; recovery_id = rid })

unfoldable pub eth_address_from_uncompressed : Curve → List ℕ → Attempt Secp256k1Error (List ℕ)
eth_address_from_uncompressed k pubkey65 = do
  ensure (sec1_uncompressed pubkey65) invalid_public_key
  ensure (k.point_ok pubkey65) invalid_public_key
  done (address_from_uncompressed_xy k pubkey65)

unfoldable pub tron_address_from_body : Curve → List ℕ → List ℕ
tron_address_from_body k body20 =
    let payload = 0x41 ∷ body20 in k.base58 (payload ++ take 4 (k.sha256 (k.sha256 payload)))

unfoldable pub recover_pubkey_uncompressed :
    Curve → List ℕ → RecoverableSignature → Attempt Secp256k1Error (List ℕ)
recover_pubkey_uncompressed k hash32 sig = do
  ensure (k.signature_ok (sig.r ++ sig.s)) recover
  ensure (k.recovery_id_ok sig.recovery_id) recover
  ok_or (k.recover_from_prehash hash32 (sig.r ++ sig.s) sig.recovery_id) recover

-- A drawn pair with its secret.
pub record Generated : Type 0 where
  pub keypair : Keypair
  pub secret : List ℕ

abbrev pub max_retries : ℕ
max_retries = 64

module _ {W : Type 0} (k : Curve) (getrandom : ℕ → W → Option (List ℕ) × W) where
  -- The loop of `generate_with_secret`, with `n` draws left.
  unfoldable pub draw_keypair : ℕ → W → Attempt Secp256k1Error Generated × W
  draw_keypair zero w = (failed csprng, w)
  draw_keypair (suc n) w =
      let (drawn, w1) = getrandom 32 w in
      elim drawn [
        | none ↦ (failed csprng, w1)
        | some secret ↦ elim (k.from_slice secret) [
          | none ↦ draw_keypair n w1
          | some point ↦ (
            done (record {
              keypair = record { signing_key = secret; verifying_key = point };
              secret = secret;
            }),
            w1,
          )
        ]
      ]

  unfoldable pub generate_with_secret : W → Attempt Secp256k1Error Generated × W
  unfolding draw_keypair
  generate_with_secret w = draw_keypair max_retries w
