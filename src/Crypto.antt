-- ===== src/Crypto.antt =====
-- The cryptography that the source calls and does not contain: the sha3 and ed25519-dalek
-- crates and `subtle`'s comparison. The functions take one of these as an argument.
use d_hsm.Prelude.{ℕ, List, Bool, true, ◌≡◌, ◌↔◌}

pub record Crypto : Type 0 where
  pub sha3_256 : List ℕ → List ℕ
  pub sha3_512 : List ℕ → List ℕ
  -- `VerifyingKey::from_bytes` is `Ok`.
  pub key_ok : List ℕ → Bool
  -- `verify_strict` of a key, a message and a signature is `Ok`.
  pub verify_strict : List ℕ → List ℕ → List ℕ → Bool
  -- `ct_eq`.
  pub ct_eq : List ℕ → List ℕ → Bool

-- What `subtle` promises of `ct_eq`.
pub record IsCtEq (c : Crypto) : Type 0 where
  pub exact : (xs ys : List ℕ) → (c.ct_eq xs ys ≡ true) ↔ (xs ≡ ys)
