-- ===== src/Anchor/Signed/Freshness.antt =====
-- The signed bytes of a freshness response of agent_anchor.rs.
use d_hsm.Prelude.{ℕ, ◌≡◌, refl, ap, List, Option, none, some, arith, length}
use d_hsm.Prelude.Bytes.{IsU64}
use d_hsm.Cbor.Cancel.{
  uint_cancel, key_uint_cancel, key_bytes_cancel, key_text_cancel, domain_cancel, last_bytes,
}
use d_hsm.Anchor.Response.{AnchorResponse, anchor_domain, pair_count, put_chain, signed_preimage}

-- Both are there, of `u64` value and length, or neither.
abbrev pub ChainWide : Option ℕ → Option (List ℕ) → Type 0
ChainWide none none = Unit
ChainWide (some h) (some b) = IsU64 h × IsU64 (length b)
ChainWide none (some b) = ⊥
ChainWide (some h) none = ⊥

-- The numbers are `u64`s and the strings have `u64` lengths; chain height and block hash are there
-- together or not at all.
pub record ResponseWide (r : AnchorResponse) : Type 0 where
  pub version_u64 : IsU64 r.version
  pub chain_u64 : IsU64 r.chain_id
  pub environment_u64 : IsU64 (length r.environment_identifier)
  pub epoch_u64 : IsU64 r.epoch
  pub structural_u64 : IsU64 r.structural_version
  pub marks_u64 : IsU64 (length r.marks_digest)
  pub nonce_u64 : IsU64 (length r.nonce)
  pub chain_wide : ChainWide r.chain_height r.chain_block_hash

-- The chain pair of one response from that of another.
chain_cancel :
    (h k : Option ℕ) (b d : Option (List ℕ))
    → ChainWide h b
    → ChainWide k d
    → pair_count h b ≡ pair_count k d
    → put_chain h b ≡ put_chain k d
    → (h ≡ k) × (b ≡ d)
chain_cancel none none none none hb kd n e = (refl, refl)
chain_cancel (some h) (some k) (some b) (some d) hb kd n e =
    let (height, e1) = key_uint_cancel 8 h k _ _ (omega arith) hb.0 kd.0 e in
    (ap some height, ap some (last_bytes 9 b d (omega arith) e1 hb.1 kd.1))
chain_cancel none (some k) none (some d) hb kd n e = absurd (omega (arith, n))
chain_cancel (some h) none (some b) none hb kd n e = absurd (omega (arith, n))
chain_cancel none none none (some d) hb kd n e = absurd kd
chain_cancel none none (some b) d hb kd n e = absurd hb
chain_cancel none (some k) none none hb kd n e = absurd kd
chain_cancel none (some k) (some b) d hb kd n e = absurd hb
chain_cancel (some h) k none d hb kd n e = absurd hb
chain_cancel (some h) none (some b) (some d) hb kd n e = absurd kd
chain_cancel (some h) (some k) (some b) none hb kd n e = absurd kd

pair_count-IsU64 : (h : Option ℕ) (b : Option (List ℕ)) → IsU64 (pair_count h b)
pair_count-IsU64 none none = omega arith
pair_count-IsU64 none (some b) = omega arith
pair_count-IsU64 (some h) none = omega arith
pair_count-IsU64 (some h) (some b) = omega arith

-- Two freshness responses of `u64` numbers and lengths, each with both or neither of chain height and
-- block hash, that have the same signed bytes agree in every field but the signature.
pub response_preimage_injective :
    (f g : AnchorResponse)
    → ResponseWide f
    → ResponseWide g
    → signed_preimage f ≡ signed_preimage g
    → (f.version ≡ g.version)
      × (f.chain_id ≡ g.chain_id)
      × (f.environment_identifier ≡ g.environment_identifier)
      × (f.epoch ≡ g.epoch)
      × (f.structural_version ≡ g.structural_version)
      × (f.marks_digest ≡ g.marks_digest)
      × (f.nonce ≡ g.nonce)
      × (f.chain_height ≡ g.chain_height)
      × (f.chain_block_hash ≡ g.chain_block_hash)
unfolding signed_preimage
response_preimage_injective f g hf hg e =
    let inner = domain_cancel anchor_domain _ _ e in
    let (count, e0) =
      uint_cancel 5 (pair_count f.chain_height f.chain_block_hash)
        (pair_count g.chain_height g.chain_block_hash) _ _ (omega arith)
        (pair_count-IsU64 f.chain_height f.chain_block_hash)
        (pair_count-IsU64 g.chain_height g.chain_block_hash) inner in
    let (version, e1) =
      key_uint_cancel 1 f.version g.version _ _ (omega arith) hf.version_u64 hg.version_u64 e0 in
    let (chain, e2) =
      key_uint_cancel 2 f.chain_id g.chain_id _ _ (omega arith) hf.chain_u64 hg.chain_u64 e1 in
    let (env, e3) =
      key_text_cancel 3 f.environment_identifier g.environment_identifier _ _ (omega arith)
        hf.environment_u64 hg.environment_u64 e2 in
    let (epoch, e4) =
      key_uint_cancel 4 f.epoch g.epoch _ _ (omega arith) hf.epoch_u64 hg.epoch_u64 e3 in
    let (structural, e5) =
      key_uint_cancel 5 f.structural_version g.structural_version _ _ (omega arith)
        hf.structural_u64 hg.structural_u64 e4 in
    let (digest, e6) =
      key_bytes_cancel 6 f.marks_digest g.marks_digest _ _ (omega arith) hf.marks_u64 hg.marks_u64
        e5 in
    let (nonce, e7) =
      key_bytes_cancel 7 f.nonce g.nonce _ _ (omega arith) hf.nonce_u64 hg.nonce_u64 e6 in
    let (height, hash) =
      chain_cancel f.chain_height g.chain_height f.chain_block_hash g.chain_block_hash hf.chain_wide
        hg.chain_wide count e7 in
    (version, chain, env, epoch, structural, digest, nonce, height, hash)
