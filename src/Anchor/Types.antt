-- ===== src/Anchor/Types.antt =====
-- The data of agent_anchor.rs that its parts share.
use d_hsm.Prelude.{ℕ, List, Bool, ◌&&◌, ◌==◌, Option}
use d_hsm.Prelude.Bytes.{bytes_eq}
use d_hsm.Prelude.Attempt.{Attempt, ensure, ◌>>◌}
use d_hsm.Crypto.{Crypto}
use d_hsm.Keystore.Types.{KeystoreConfig}

pub data AnchorError : Type 0 where
  malformed signature_invalid scope_mismatch nonce_mismatch : AnchorError

pub record AnchorState : Type 0 where
  pub epoch : ℕ
  pub structural_version : ℕ
  pub marks_digest : List ℕ
  pub chain_height : Option ℕ
  pub chain_block_hash : Option (List ℕ)

abbrev pub digest_len : ℕ
digest_len = 32

-- The three checks that every message passes: the sealed root decodes as a key, the signature
-- verifies under it, and the message is of this chain and environment.
abbrev pub checked_signature {ℓ} :
    {E : Type ℓ} → Crypto → KeystoreConfig → List ℕ → List ℕ → E → Attempt E (Unit {0})
checked_signature c config preimage signature e = do
  ensure (c.key_ok config.anchor_root) e
  ensure (c.verify_strict config.anchor_root preimage signature) e

abbrev pub in_scope : KeystoreConfig → ℕ → List ℕ → Bool
in_scope config chain_id environment_identifier =
    chain_id == config.twod_chain_id
    && bytes_eq environment_identifier config.environment_identifier
