-- ===== src/Keystore/Seal/Kept.antt =====
-- `seal_body` and then `unseal_body` of agent_keystore.rs.
use d_hsm.Prelude.{ℕ, ◌≡◌, List, Option, some, length}
use d_hsm.Prelude.Attempt.{done}
use d_hsm.Crypto.{Crypto}
use d_hsm.Keystore.Types.{KeystoreBody}
use d_hsm.Keystore.Seal.{Sealer, unseal_keystore, unseal_body}
use d_hsm.Keystore.Seal.Body.{seal_body}
use d_hsm.Keystore.Seal.Drawn.{Blob, seal_body-Blob}
use d_hsm.Keystore.Seal.RoundTrip.{
  IsSealer, IsRead, unseal_keystore-seal_keystore_with_nonce, unseal_body-seal_keystore_with_nonce,
}

module _ {W : Type 0} (c : Crypto) (s : Sealer) (getrandom : ℕ → W → Option (List ℕ) × W) where
  -- The generator fills what it is asked for.
  abbrev pub Fills : Type 0
  Fills = (n : ℕ) (w : W) (drawn : List ℕ) → (getrandom n w).0 ≡ some drawn → length drawn ≡ n

  pub unseal_keystore-Blob :
      (y : KeystoreBody) (root measurement sealed : List ℕ)
      → IsSealer c s
      → Fills
      → Blob c s getrandom y root measurement sealed
      → unseal_keystore c s sealed root measurement ≡ done (s.write_body y)
  unseal_keystore-Blob y root measurement sealed ok_s fills b =
      unseal_keystore-seal_keystore_with_nonce c s (s.write_body y) root measurement b.nonce sealed
        ok_s (fills 24 b.before b.nonce b.drawn) b.blob

  -- Where the hash is of 32 bytes, the cipher opens what it has closed, the generator fills what it
  -- is asked for and the serializer reads the body back: from the blob that sealing a body returns,
  -- unsealing under the same root and measurement returns the body.
  pub unseal_body-seal_body :
      (y : KeystoreBody) (root measurement sealed : List ℕ) (w w' : W)
      → IsSealer c s
      → Fills
      → IsRead s y
      → seal_body c s getrandom y root measurement w ≡ (done sealed, w')
      → unseal_body c s sealed root measurement ≡ done y
  unseal_body-seal_body y root measurement sealed w w' ok_s fills reads h =
      let b = seal_body-Blob c s getrandom y root measurement sealed w w' h in
      unseal_body-seal_keystore_with_nonce c s y root measurement b.nonce sealed ok_s reads
        (fills 24 b.before b.nonce b.drawn) b.valid b.blob
