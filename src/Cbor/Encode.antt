-- ===== src/Cbor/Encode.antt =====
-- `put_uint`, `put_text` and `put_bytes` of agent_capability.rs. Each returns the bytes that it
-- appends to `out`.
use d_hsm.Prelude.{ℕ, ◌*◌, ◌%◌, bit_or, List, [], ◌∷◌, ◌++◌, ltb, leb, length, if◌then◌else◌}
use d_hsm.Prelude.Bytes.{be_bytes}

-- `major << 5` on a `u8`.
unfoldable pub put_uint : ℕ → ℕ → List ℕ
put_uint major val =
    let mt = major * 32 % 256 in
    if ltb val 24
    then bit_or mt val ∷ []
    else if leb val 0xff
    then bit_or mt 24 ∷ val ∷ []
    else if leb val 0xffff
    then bit_or mt 25 ∷ be_bytes 2 val
    else if leb val 0xffff_ffff
    then bit_or mt 26 ∷ be_bytes 4 val
    else bit_or mt 27 ∷ be_bytes 8 val

unfoldable pub put_text : List ℕ → List ℕ
put_text s = put_uint 3 (length s) ++ s

unfoldable pub put_bytes : List ℕ → List ℕ
put_bytes b = put_uint 2 (length b) ++ b
