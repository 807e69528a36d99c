-- ===== src/Keystore/Seal/Drawn.antt =====
-- What a blob that `seal_body` of agent_keystore.rs returns was made of.
use d_hsm.Prelude.{ℕ, ◌+◌, ◌≡◌, ap, List, Option, some, not, ltb, length}
use d_hsm.Prelude.Attempt.{done, ensure, ok_or-done}
use d_hsm.Prelude.Action.{>>=-eq-done}
use d_hsm.Crypto.{Crypto}
use d_hsm.Keystore.Types.{KeystoreBody, Result, ok, err, blob_too_large, csprng}
use d_hsm.Keystore.Validate.{validate}
use d_hsm.Keystore.Seal.{
  Sealer, seal_keystore_with_nonce, validated, header_len, tag_len, max_keystore_blob_size,
}
use d_hsm.Keystore.Seal.Body.{seal_body, seal_keystore, draw_nonce}

validated-done : (r : Result (Unit {0})) {u : Unit {0}} → validated r ≡ done u → r ≡ ok tt
validated-done (ok tt) h = cc
validated-done (err e) h = cc

module _ {W : Type 0} (c : Crypto) (s : Sealer) (getrandom : ℕ → W → Option (List ℕ) × W) where
  -- A blob of a body that validates, under a nonce that the generator has drawn.
  pub record Blob (y : KeystoreBody) (root measurement sealed : List ℕ) : Type 0 where
    pub valid : validate y ≡ ok tt
    pub nonce : List ℕ
    pub before : W
    pub drawn : (getrandom 24 before).0 ≡ some nonce
    pub blob : seal_keystore_with_nonce c s (s.write_body y) root measurement nonce ≡ done sealed

  pub seal_body-Blob :
      (y : KeystoreBody) (root measurement sealed : List ℕ) (w w' : W)
      → seal_body c s getrandom y root measurement w ≡ (done sealed, w')
      → Blob y root measurement sealed
  unfolding seal_body seal_keystore
  seal_body-Blob y root measurement sealed w w' h =
      let (u0, w0, e0, h0) = >>=-eq-done (validated (validate y), w) _ h in
      let fits =
        not (ltb max_keystore_blob_size (header_len + length (s.write_body y) + tag_len)) in
      let (u1, w1, e1, h1) = >>=-eq-done (ensure fits blob_too_large, w0) _ h0 in
      let (nonce, w2, e2, h2) = >>=-eq-done (draw_nonce c s getrandom w1) _ h1 in
      record {
        valid = validated-done (validate y) (ap (λ p. p.0) e0);
        nonce = nonce;
        before = w1;
        drawn = ok_or-done ((getrandom 24 w1).0) csprng (ap (λ p. p.0) e2);
        blob = ap (λ p. p.0) h2;
      }
