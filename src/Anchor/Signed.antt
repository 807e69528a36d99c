-- ===== src/Anchor/Signed.antt =====
-- The signed bytes of the three messages of agent_anchor.rs, compared.
pub mod Freshness
use d_hsm.Prelude.{ℕ, ◌≡◌, ◌≢◌, ap, List, [], ◌∷◌, arith, length, drop}
use d_hsm.Prelude.Bytes.{IsU64}
use d_hsm.Cbor.Cancel.{
  uint_cancel, key_uint_cancel, key_bytes_cancel, key_text_cancel, domain_cancel, last_bytes,
}
use d_hsm.Envelope.Signed.{MarksRespFields, CommitAckFields}
use d_hsm.Anchor.Response.{AnchorResponse, signed_preimage}
use d_hsm.Anchor.Marks.{marks_resp_signed_preimage, marks_resp_domain}
use d_hsm.Anchor.Commit.{commit_ack_signed_preimage, commit_ack_domain}

-- The numbers are `u64`s and the strings have `u64` lengths.
pub record MarksRespWide (f : MarksRespFields) : Type 0 where
  pub version_u64 : IsU64 f.version
  pub chain_u64 : IsU64 f.chain_id
  pub environment_u64 : IsU64 (length f.environment_identifier)
  pub epoch_u64 : IsU64 f.epoch
  pub nonce_u64 : IsU64 (length f.nonce)
  pub payload_u64 : IsU64 (length f.marks_payload)

-- Two raw-marks messages of `u64` numbers and lengths with the same signed bytes agree in every
-- field but the signature.
pub marks_resp_signed_preimage_injective :
    (f g : MarksRespFields)
    → MarksRespWide f
    → MarksRespWide g
    → marks_resp_signed_preimage f ≡ marks_resp_signed_preimage g
    → (f.version ≡ g.version)
      × (f.chain_id ≡ g.chain_id)
      × (f.environment_identifier ≡ g.environment_identifier)
      × (f.epoch ≡ g.epoch)
      × (f.nonce ≡ g.nonce)
      × (f.marks_payload ≡ g.marks_payload)
unfolding marks_resp_signed_preimage
marks_resp_signed_preimage_injective f g hf hg e =
    let inner = domain_cancel marks_resp_domain _ _ e in
    let (count, e0) = uint_cancel 5 6 6 _ _ (omega arith) (omega arith) (omega arith) inner in
    let (version, e1) =
      key_uint_cancel 1 f.version g.version _ _ (omega arith) hf.version_u64 hg.version_u64 e0 in
    let (chain, e2) =
      key_uint_cancel 2 f.chain_id g.chain_id _ _ (omega arith) hf.chain_u64 hg.chain_u64 e1 in
    let (env, e3) =
      key_text_cancel 3 f.environment_identifier g.environment_identifier _ _ (omega arith)
        hf.environment_u64 hg.environment_u64 e2 in
    let (epoch, e4) =
      key_uint_cancel 4 f.epoch g.epoch _ _ (omega arith) hf.epoch_u64 hg.epoch_u64 e3 in
    let (nonce, e5) =
      key_bytes_cancel 5 f.nonce g.nonce _ _ (omega arith) hf.nonce_u64 hg.nonce_u64 e4 in
    (
      version,
      chain,
      env,
      epoch,
      nonce,
      last_bytes 6 f.marks_payload g.marks_payload (omega arith) e5 hf.payload_u64 hg.payload_u64,
    )

-- The numbers are `u64`s and the strings have `u64` lengths.
pub record CommitAckWide (f : CommitAckFields) : Type 0 where
  pub version_u64 : IsU64 f.version
  pub chain_u64 : IsU64 f.chain_id
  pub environment_u64 : IsU64 (length f.environment_identifier)
  pub epoch_u64 : IsU64 f.epoch
  pub structural_u64 : IsU64 f.structural_version
  pub marks_u64 : IsU64 (length f.marks_digest)
  pub nonce_u64 : IsU64 (length f.nonce)
  pub request_u64 : IsU64 (length f.request_id)

-- Two commit acknowledgements of `u64` numbers and lengths with the same signed bytes agree in
-- every field but the signature.
pub commit_ack_signed_preimage_injective :
    (f g : CommitAckFields)
    → CommitAckWide f
    → CommitAckWide g
    → commit_ack_signed_preimage f ≡ commit_ack_signed_preimage g
    → (f.version ≡ g.version)
      × (f.chain_id ≡ g.chain_id)
      × (f.environment_identifier ≡ g.environment_identifier)
      × (f.epoch ≡ g.epoch)
      × (f.structural_version ≡ g.structural_version)
      × (f.marks_digest ≡ g.marks_digest)
      × (f.nonce ≡ g.nonce)
      × (f.request_id ≡ g.request_id)
unfolding commit_ack_signed_preimage
commit_ack_signed_preimage_injective f g hf hg e =
    let inner = domain_cancel commit_ack_domain _ _ e in
    let (count, e0) = uint_cancel 5 8 8 _ _ (omega arith) (omega arith) (omega arith) inner in
    let (version, e1) =
      key_uint_cancel 1 f.version g.version _ _ (omega arith) hf.version_u64 hg.version_u64 e0 in
    let (chain, e2) =
      key_uint_cancel 2 f.chain_id g.chain_id _ _ (omega arith) hf.chain_u64 hg.chain_u64 e1 in
    let (env, e3) =
      key_text_cancel 3 f.environment_identifier g.environment_identifier _ _ (omega arith)
        hf.environment_u64 hg.environment_u64 e2 in
    let (epoch, e4) =
      key_uint_cancel 4 f.epoch g.epoch _ _ (omega arith) hf.epoch_u64 hg.epoch_u64 e3 in
    let (structural, e5) =
      key_uint_cancel 5 f.structural_version g.structural_version _ _ (omega arith)
        hf.structural_u64 hg.structural_u64 e4 in
    let (digest, e6) =
      key_bytes_cancel 6 f.marks_digest g.marks_digest _ _ (omega arith) hf.marks_u64 hg.marks_u64
        e5 in
    let (nonce, e7) =
      key_bytes_cancel 7 f.nonce g.nonce _ _ (omega arith) hf.nonce_u64 hg.nonce_u64 e6 in
    (
      version,
      chain,
      env,
      epoch,
      structural,
      digest,
      nonce,
      last_bytes 8 f.request_id g.request_id (omega arith) e7 hf.request_u64 hg.request_u64,
    )

-- The byte at an index; 0 past the end.
abbrev byte_at : ℕ → List ℕ → ℕ
byte_at n l = elim (drop n l) [ [] ↦ 0 | x ∷ xs ↦ x ]

-- No bytes are signed both as a freshness response and as a raw-marks message, nor as either and
-- as a commit acknowledgement.
pub preimages_apart :
    (r : AnchorResponse) (f : MarksRespFields) (a : CommitAckFields)
    → (signed_preimage r ≢ marks_resp_signed_preimage f)
      × (signed_preimage r ≢ commit_ack_signed_preimage a)
      × (marks_resp_signed_preimage f ≢ commit_ack_signed_preimage a)
unfolding signed_preimage marks_resp_signed_preimage commit_ack_signed_preimage
preimages_apart r f a = (
  λ e. omega (arith, ap (byte_at 19) e),
  λ e. omega (arith, ap (byte_at 19) e),
  λ e. omega (arith, ap (byte_at 20) e),
)
