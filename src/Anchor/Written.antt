-- ===== src/Anchor/Written.antt =====
-- The signed bytes of a freshness response of agent_anchor.rs as one canonical map.
use d_hsm.Prelude.{ℕ, suc, ◌≡◌, refl, sym, ap, ◌∙◌, List, ◌++◌, append-nil, Option, none, some}
use d_hsm.Cbor.Value.{Entries, unsigned, bytes, text, map_of, end, entry}
use d_hsm.Cbor.Encode.{put_uint, put_bytes, put_text}
use d_hsm.Cbor.Canonical.{encode, encode_entries, count_entries}
use d_hsm.Anchor.Response.{AnchorResponse, anchor_domain, pair_count, put_chain, signed_preimage}

-- Keys 8 and 9 are there when chain height and block hash both are.
abbrev pub chain_map : Option ℕ → Option (List ℕ) → Entries
chain_map (some h) (some bh) = entry (unsigned 8) (unsigned h) (entry (unsigned 9) (bytes bh) end)
chain_map _ _ = end

-- The map of every field but the signature.
abbrev pub response_map : AnchorResponse → Entries
response_map r = entry (unsigned 1) (unsigned r.version) (
    entry (unsigned 2) (unsigned r.chain_id) (
      entry (unsigned 3) (text r.environment_identifier) (
        entry (unsigned 4) (unsigned r.epoch) (
          entry (unsigned 5) (unsigned r.structural_version) (
            entry (unsigned 6) (bytes r.marks_digest) (
              entry (unsigned 7) (bytes r.nonce) (chain_map r.chain_height r.chain_block_hash)))))))

chain_written :
    (h : Option ℕ) (b : Option (List ℕ)) → put_chain h b ≡ encode_entries (chain_map h b)
unfolding encode encode_entries
chain_written (some h) (some b) = rw (append-nil (put_bytes b)) refl
chain_written (some h) none = refl
chain_written none (some b) = refl
chain_written none none = refl

seven_more : ℕ → ℕ
seven_more n = suc (suc (suc (suc (suc (suc (suc n))))))

count_written :
    (h : Option ℕ) (b : Option (List ℕ))
    → seven_more (count_entries (chain_map h b)) ≡ pair_count h b
unfolding seven_more
count_written (some h) (some b) = refl
count_written (some h) none = refl
count_written none (some b) = refl
count_written none none = refl

-- What is written before the chain pair.
abbrev before_chain : AnchorResponse → List ℕ → List ℕ
before_chain r rest =
    put_uint 0 1
    ++ (put_uint 0 r.version
        ++ (put_uint 0 2
            ++ (put_uint 0 r.chain_id
                ++ (put_uint 0 3
                    ++ (put_text r.environment_identifier
                        ++ (put_uint 0 4
                            ++ (put_uint 0 r.epoch
                                ++ (put_uint 0 5
                                    ++ (put_uint 0 r.structural_version
                                        ++ (put_uint 0 6
                                            ++ (put_bytes r.marks_digest
                                                ++ (put_uint 0 7
                                                    ++ (put_bytes r.nonce ++ rest)))))))))))))

-- The bytes that are signed are the domain and the canonical encoding of the fields.
pub signed_preimage-encode :
    (r : AnchorResponse) → signed_preimage r ≡ anchor_domain ++ encode (map_of (response_map r))
unfolding signed_preimage encode encode_entries seven_more
signed_preimage-encode r =
    let h = r.chain_height in
    let b = r.chain_block_hash in
    ap (λ t. anchor_domain ++ (put_uint 5 (pair_count h b) ++ before_chain r t)) (chain_written h b)
    ∙ ap (λ n. anchor_domain ++ (put_uint 5 n ++ before_chain r (encode_entries (chain_map h b))))
        (sym (count_written h b))
