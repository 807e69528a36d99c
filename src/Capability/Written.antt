-- ===== src/Capability/Written.antt =====
-- The signed bytes of a capability of agent_capability.rs as one canonical map.
use d_hsm.Prelude.{
  ℕ, suc, ◌≡◌, refl, sym, ap, ◌∙◌, List, [], ◌∷◌, ◌++◌, append_assoc, append-nil, Bool, true, false,
  Option, none, some, if◌then◌else◌,
}
use d_hsm.Cbor.Value.{Entries, unsigned, bytes, text, bool, map_of, end, entry}
use d_hsm.Cbor.Encode.{put_uint, put_bytes, put_text}
use d_hsm.Cbor.Canonical.{encode, encode_entries, count_entries}
use d_hsm.Capability.Parse.{Capability}
use d_hsm.Capability.Verify.{cap_domain, put_sub_op, pair_count, signed_preimage}

-- Key 3 is there exactly with a sub-operation.
abbrev pub with_sub_op : Option ℕ → Entries → Entries
with_sub_op none es = es
with_sub_op (some sub) es = entry (unsigned 3) (unsigned sub) es

abbrev pub fields_from_purpose : Capability → Entries
fields_from_purpose cap = entry (unsigned 4) (unsigned cap.key_purpose) (
    entry (unsigned 5) (unsigned cap.chain_id) (
      entry (unsigned 6) (text cap.environment_identifier) (
        entry (unsigned 7) (unsigned cap.scope_class) (
          entry (unsigned 8) (bytes cap.scope_target) (
            entry (unsigned 9) (unsigned cap.counter) (
              entry (unsigned 10) (bytes cap.request_id) (
                entry (unsigned 11) (bytes cap.payload_binding) (
                  entry (unsigned 12) (bool cap.is_recovery)
                    (entry (unsigned 13) (bytes cap.scope_identity) end)))))))))

-- The map of every field but the signature.
abbrev pub signed_map : Capability → Entries
signed_map cap = entry (unsigned 1) (unsigned cap.cap_format_version) (
    entry (unsigned 2) (unsigned cap.command_opcode)
      (with_sub_op cap.treasury_sub_op (fields_from_purpose cap)))

last_written :
    (b : Bool) (id : List ℕ)
    → ((if b then 0xf5 else 0xf4) ∷ []) ++ (put_uint 0 13 ++ put_bytes id)
      ≡ encode (bool b) ++ (encode (unsigned 13) ++ (encode (bytes id) ++ []))
unfolding encode put_uint
last_written true id = rw (append-nil (put_bytes id)) refl
last_written false id = rw (append-nil (put_bytes id)) refl

sub_op_written :
    (o : Option ℕ) (es : Entries)
    → put_sub_op o ++ encode_entries es ≡ encode_entries (with_sub_op o es)
unfolding encode encode_entries
sub_op_written none es = refl
sub_op_written (some sub) es = append_assoc (put_uint 0 3) (put_uint 0 sub) (encode_entries es)

count_written :
    (o : Option ℕ) (cap : Capability)
    → suc (suc (count_entries (with_sub_op o (fields_from_purpose cap)))) ≡ pair_count o
count_written none cap = refl
count_written (some sub) cap = refl

-- What is written before the last two fields.
abbrev before_flag : Capability → List ℕ → List ℕ
before_flag cap rest =
    put_uint 0 4
    ++ (put_uint 0 cap.key_purpose
        ++ (put_uint 0 5
            ++ (put_uint 0 cap.chain_id
                ++ (put_uint 0 6
                    ++ (put_text cap.environment_identifier
                        ++ (put_uint 0 7
                            ++ (put_uint 0 cap.scope_class
                                ++ (put_uint 0 8
                                    ++ (put_bytes cap.scope_target
                                        ++ (put_uint 0 9
                                            ++ (put_uint 0 cap.counter
                                                ++ (put_uint 0 10
                                                    ++ (put_bytes cap.request_id
                                                        ++ (put_uint 0 11
                                                            ++ (put_bytes cap.payload_binding
                                                            ++ (put_uint 0 12
                                                            ++ rest))))))))))))))))

abbrev start_of : Capability → List ℕ → List ℕ
start_of cap rest =
    put_uint 0 1
    ++ (put_uint 0 cap.cap_format_version
        ++ (put_uint 0 2 ++ (put_uint 0 cap.command_opcode ++ rest)))

-- The bytes that are signed are the domain and the canonical encoding of the fields.
pub signed_preimage-encode :
    (cap : Capability) → signed_preimage cap ≡ cap_domain ++ encode (map_of (signed_map cap))
unfolding signed_preimage encode encode_entries
signed_preimage-encode cap =
    let o = cap.treasury_sub_op in
    let tail : List ℕ = before_flag cap (
      ((if cap.is_recovery then 0xf5 else 0xf4) ∷ [])
      ++ (put_uint 0 13 ++ put_bytes cap.scope_identity)) in
    let fields : tail ≡ encode_entries (fields_from_purpose cap) =
      ap (before_flag cap) (last_written cap.is_recovery cap.scope_identity) in
    ap (λ t. cap_domain ++ (put_uint 5 (pair_count o) ++ start_of cap (put_sub_op o ++ t))) fields
    ∙ ap (λ t. cap_domain ++ (put_uint 5 (pair_count o) ++ start_of cap t))
        (sub_op_written o (fields_from_purpose cap))
    ∙ ap
        (λ n.
          cap_domain
          ++ (put_uint 5 n
              ++ start_of cap (encode_entries (with_sub_op o (fields_from_purpose cap)))))
        (sym (count_written o cap))
