-- ===== src/Signer/Identity.antt =====
-- agent_identity.rs.
use d_hsm.Prelude.{
  ℕ, ◌%◌, List, [], ◌∷◌, ◌++◌, not, Option, none, some, ltb, ◌==◌, if◌then◌else◌, length,
}
use d_hsm.Prelude.Bytes.{be_bytes, bytes_eq}
use d_hsm.Prelude.Attempt.{Attempt, done, ensure, map_err, ◌>>=◌, ◌>>◌}
use d_hsm.Keystore.Types.{KeystoreBody, KeyEntry, KeyPurpose}
use d_hsm.Keystore.Validate.{is_valid_environment_identifier}
use d_hsm.Signer.Curve.{
  Curve, Keypair, RecoverableSignature, Secp256k1Error, invalid_public_key, eth_address,
  sign_prehashed, eth_address_from_uncompressed, tron_address_from_body,
}

pub data IdentityProofError : Type 0 where
  field_too_long invalid_environment_id sign : IdentityProofError

abbrev pub eip191_domain : ℕ
eip191_domain = 0x19

abbrev pub identity_proof_label : List ℕ
identity_proof_label =
    b'2' ∷ b'd' ∷ b'-' ∷ b'h' ∷ b's' ∷ b'm' ∷ b'/' ∷ b'a' ∷ b'g' ∷ b'e' ∷ b'n' ∷ b't' ∷ b'-' ∷ b'i'
    ∷ b'd' ∷ b'e' ∷ b'n' ∷ b't' ∷ b'i' ∷ b't' ∷ b'y' ∷ b'-' ∷ b'p' ∷ b'r' ∷ b'o' ∷ b'o' ∷ b'f'
    ∷ b'/' ∷ b'v' ∷ b'1' ∷ []

-- The lengths are written `as u8`.
unfoldable pub identity_proof_preimage :
    ℕ → List ℕ → List ℕ → List ℕ → List ℕ → List ℕ → Attempt IdentityProofError (List ℕ)
unfolding is_valid_environment_identifier be_bytes
identity_proof_preimage chain_id env key_ref pubkey_uncompressed address verifier_nonce = do
  ensure (not (ltb 255 (length identity_proof_label))) field_too_long
  ensure (is_valid_environment_identifier env) invalid_environment_id
  let bound = key_ref ++ (pubkey_uncompressed ++ (address ++ verifier_nonce))
  let scope = be_bytes 8 chain_id ++ (((length env % 256) ∷ env) ++ bound)
  done (eip191_domain ∷ (length identity_proof_label % 256) ∷ (identity_proof_label ++ scope))

pub record IdentityProof : Type 0 where
  pub signature : RecoverableSignature
  pub pubkey_uncompressed : List ℕ
  pub address : List ℕ
  pub signing_hash : List ℕ

unfoldable pub sign_identity_proof :
    Curve → Keypair → ℕ → List ℕ → List ℕ → List ℕ → Attempt IdentityProofError IdentityProof
unfolding identity_proof_preimage sign_prehashed
sign_identity_proof k keypair chain_id env key_ref verifier_nonce = do
  let address = eth_address k keypair
  preimage ←
      identity_proof_preimage chain_id env key_ref keypair.verifying_key address verifier_nonce
  let signing_hash = k.keccak256 preimage
  signature ← map_err (λ _. sign) (sign_prehashed k keypair signing_hash)
  done (record {
    signature = signature;
    pubkey_uncompressed = keypair.verifying_key;
    address = address;
    signing_hash = signing_hash;
  })

abbrev pub agent_gateway_version : ℕ
agent_gateway_version = 1

pub record PublicIdentity : Type 0 where
  pub pubkey_uncompressed : List ℕ
  pub eth_address : List ℕ
  pub tron_address : List ℕ
  pub key_ref : List ℕ
  pub key_purpose : KeyPurpose
  pub agent_version : ℕ

-- `find` on the entries.
unfoldable pub find_key : List ℕ → List KeyEntry → Option KeyEntry
unfolding bytes_eq
find_key key_ref [] = none
find_key key_ref (e ∷ es) = if bytes_eq e.key_ref key_ref then some e else find_key key_ref es

unfoldable pub find_entry : KeystoreBody → List ℕ → Option KeyEntry
unfolding find_key
find_entry body key_ref = find_key key_ref body.entries

unfoldable pub public_identity_from_entry : Curve → KeyEntry → Attempt Secp256k1Error PublicIdentity
unfolding eth_address_from_uncompressed tron_address_from_body
public_identity_from_entry k entry = do
  ensure (length entry.public_identity == 65) invalid_public_key
  address ← eth_address_from_uncompressed k entry.public_identity
  done (record {
    pubkey_uncompressed = entry.public_identity;
    eth_address = address;
    tron_address = tron_address_from_body k address;
    key_ref = entry.key_ref;
    key_purpose = entry.purpose;
    agent_version = agent_gateway_version;
  })
