-- ===== src/Keystore/Seal/RoundTrip.antt =====
-- `unseal_body` of agent_keystore.rs after `seal_body`.
use d_hsm.Prelude.{
  ℕ, ◌+◌, ◌≤◌, ◌≡◌, refl, ap, ◌∙◌, subst, List, ◌++◌, true, false, not, some, ltb, ltb_of_le, ◌==◌,
  eq_refl, length, take, drop, take-append_self, drop-append_self, length-append, append_assoc,
  arith,
}
use d_hsm.Prelude.Bytes.{be_bytes, bytes_eq, bytes_eq_refl}
use d_hsm.Prelude.Attempt.{done, ensure, ensure-true, ok_or, ok_or-done, >>=-eq-done, done_inv}
use d_hsm.Crypto.{Crypto}
use d_hsm.Keystore.Types.{KeystoreBody, ok, empty_measurement, encrypt, decrypt}
use d_hsm.Keystore.Validate.{validate}
use d_hsm.Keystore.Seal.{
  Sealer, aad, measurement_digest, derive_aead_key, seal_keystore_with_nonce, unseal_keystore,
  unseal_body,
}

-- What the hash and the cipher promise: a hash of 32 bytes, and a message that is opened with what
-- it was closed with and carries its tag.
pub record IsSealer (c : Crypto) (s : Sealer) : Type 0 where
  pub hash_length : (message : List ℕ) → length (c.sha3_256 message) ≡ 32
  pub opens :
      (key nonce associated message ct : List ℕ)
      → s.aead_encrypt key nonce associated message ≡ some ct
      → (s.aead_decrypt key nonce associated ct ≡ some message) × (16 ≤ length ct)

-- The serializer reads the body back, and all of it.
abbrev pub IsRead : Sealer → KeystoreBody → Type 0
IsRead s y = s.read_body (s.write_body y) ≡ some (y, length (s.write_body y))

take-append_exact : (n : ℕ) (xs ys : List ℕ) → length xs ≡ n → take n (xs ++ ys) ≡ xs
take-append_exact n xs ys h = subst (λ k. take k (xs ++ ys) ≡ xs) h (take-append_self xs ys)

drop-append_exact : (n : ℕ) (xs ys : List ℕ) → length xs ≡ n → drop n (xs ++ ys) ≡ ys
drop-append_exact n xs ys h = subst (λ k. drop k (xs ++ ys) ≡ ys) h (drop-append_self xs ys)

unseal_keystore_framed :
    (c : Crypto) (s : Sealer) (root measurement nonce ct : List ℕ)
    → not (length measurement == 0) ≡ true
    → length (measurement_digest c measurement) ≡ 32
    → length nonce ≡ 24
    → 16 ≤ length ct
    → unseal_keystore c s (aad (measurement_digest c measurement) ++ (nonce ++ ct)) root measurement
      ≡ ok_or
          (s.aead_decrypt
            (derive_aead_key c root (measurement_digest c measurement))
            nonce
            (aad (measurement_digest c measurement))
            ct)
          decrypt
unfolding unseal_keystore be_bytes
unseal_keystore_framed c s root measurement nonce ct some_measurement hash_length nonce_length tag =
    let md = measurement_digest c measurement in
    let rest = md ++ (nonce ++ ct) in
    let digest : take 32 rest ≡ md = take-append_exact 32 md (nonce ++ ct) hash_length in
    let same : bytes_eq md md ≡ true = bytes_eq_refl md in
    let whole : length rest ≡ 56 + length ct =
      rw (length-append md (nonce ++ ct), length-append nonce ct) (omega arith) in
    let long : ltb (length (aad md ++ (nonce ++ ct))) 82 ≡ false = ltb_of_le _ 82 (omega arith) in
    let body : drop 56 rest ≡ ct =
      subst (λ l. drop 56 l ≡ ct) (append_assoc md nonce ct)
        (drop-append_exact 56 (md ++ nonce) ct (rw (length-append md nonce) (omega arith))) in
    let tail : drop 32 rest ≡ nonce ++ ct = drop-append_exact 32 md (nonce ++ ct) hash_length in
    let drawn : take 24 (nonce ++ ct) ≡ nonce = take-append_exact 24 nonce ct nonce_length in
    rw (some_measurement, long, digest, same, tail, drawn, body) refl

pub unseal_keystore-seal_keystore_with_nonce :
    (c : Crypto) (s : Sealer) (message root measurement nonce blob : List ℕ)
    → IsSealer c s
    → length nonce ≡ 24
    → seal_keystore_with_nonce c s message root measurement nonce ≡ done blob
    → unseal_keystore c s blob root measurement ≡ done message
unfolding seal_keystore_with_nonce
unseal_keystore-seal_keystore_with_nonce c s message root measurement nonce blob ok_s size h =
    let md = measurement_digest c measurement in
    let key = derive_aead_key c root md in
    let given = not (length measurement == 0) in
    let (u, e0, h0) = >>=-eq-done (ensure given empty_measurement) _ h in
    let (ct, e1, h1) =
      >>=-eq-done (ok_or (s.aead_encrypt key nonce (aad md) message) encrypt) _ h0 in
    let closed = ok_or-done (s.aead_encrypt key nonce (aad md) message) encrypt e1 in
    let (opened, tag) = ok_s.opens key nonce (aad md) message ct closed in
    subst (λ b. unseal_keystore c s b root measurement ≡ done message) (done_inv h1)
      (unseal_keystore_framed c s root measurement nonce ct (ensure-true given empty_measurement e0)
          (ok_s.hash_length _) size tag
        ∙ ap (λ o. ok_or o decrypt) opened)

pub unseal_body-seal_keystore_with_nonce :
    (c : Crypto) (s : Sealer) (y : KeystoreBody) (root measurement nonce blob : List ℕ)
    → IsSealer c s
    → IsRead s y
    → length nonce ≡ 24
    → validate y ≡ ok tt
    → seal_keystore_with_nonce c s (s.write_body y) root measurement nonce ≡ done blob
    → unseal_body c s blob root measurement ≡ done y
unfolding unseal_body
unseal_body-seal_keystore_with_nonce c s y root measurement nonce blob ok_s reads size valid h =
    rw
      (
        unseal_keystore-seal_keystore_with_nonce c s (s.write_body y) root measurement nonce blob
            ok_s size h,
        reads,
        eq_refl (length (s.write_body y)),
        valid,
      )
      refl
