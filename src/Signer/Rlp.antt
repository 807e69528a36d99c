-- ===== src/Signer/Rlp.antt =====
-- rlp.rs. Each function returns the bytes that the source appends to `out`.
use d_hsm.Prelude.{ℕ, ◌+◌, ◌%◌, List, [], ◌∷◌, ◌++◌, ltb, ◌==◌, if◌then◌else◌, Bool, false, length}
use d_hsm.Prelude.Bytes.{be_bytes}

-- `&be_bytes[first_nonzero..]`.
unfoldable pub strip_zeros : List ℕ → List ℕ
strip_zeros [] = []
strip_zeros (b ∷ bs) = let rest = strip_zeros bs in if b == 0 then rest else b ∷ bs

-- `len as u8` and `len as u64` are modulo 2^8 and 2^64; the `u8` sums wrap.
unfoldable pub encode_length : ℕ → ℕ → List ℕ
unfolding be_bytes strip_zeros
encode_length len offset =
    if ltb len 56
    then ((offset + len % 256) % 256) ∷ []
    else let len_bytes = strip_zeros (be_bytes 8 len) in
      ((offset + 55 + length len_bytes % 256) % 256) ∷ len_bytes

abbrev pub single_small : List ℕ → Bool
single_small (b ∷ []) = ltb b 0x80
single_small _ = false

unfoldable pub encode_bytes : List ℕ → List ℕ
unfolding encode_length
encode_bytes bytes =
    if single_small bytes then bytes else encode_length (length bytes) 0x80 ++ bytes

unfoldable pub encode_uint_minimal : List ℕ → List ℕ
unfolding encode_bytes strip_zeros
encode_uint_minimal be_bytes = encode_bytes (strip_zeros be_bytes)

-- The concatenation of the items.
unfoldable pub concat : List (List ℕ) → List ℕ
concat [] = []
concat (it ∷ its) = it ++ concat its

unfoldable pub encode_list : List (List ℕ) → List ℕ
unfolding encode_length concat
encode_list items = encode_length (length (concat items)) 0xc0 ++ concat items
