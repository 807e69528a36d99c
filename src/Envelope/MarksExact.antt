-- ===== src/Envelope/MarksExact.antt =====
-- The format of the marks payload, described without reading: `marks_wire` writes the four-key map,
-- `IsMarks` bounds its fields and orders its rows; and `strict_decode_marks_payload` of agent_cbor.rs
-- on it.
use d_hsm.Prelude.{
  ℕ, ◌*◌, ◌≤◌, ◌≡◌, refl, subst, List, [], ◌∷◌, ◌++◌, append_assoc, append-nil, true, Option, none,
  some, arith, ltb_of_le, length, length-append, All,
}
use d_hsm.Prelude.Bytes.{IsU64}
use d_hsm.Cbor.Encode.{put_uint, put_bytes}
use d_hsm.Cbor.Parser.{uint, bstr_exact}
use d_hsm.Cbor.Typed.{typed_head-put_uint, uint-put_uint, bstr-put_bytes, bstr_exact-put_bytes}
use d_hsm.Cbor.Canonical.Complete.{length-put_uint}
use d_hsm.Envelope.Fields.{field-put}
use d_hsm.Envelope.Marks.{
  DecodedRow, DecodedMarks, follows, byte_uint, decode_row, decode_rows, row_table,
  strict_decode_marks_payload, marks_scope_target_max_len, min_row_bytes,
}

unfoldable pub row_wire : DecodedRow → List ℕ
row_wire r =
    put_uint 4 4
    ++ (put_bytes r.authority
        ++ (put_uint 0 r.scope_class
            ++ (put_bytes r.scope_target ++ put_uint 0 r.highest_accepted_counter)))

unfoldable pub rows_wire : List DecodedRow → List ℕ
unfolding row_wire
rows_wire [] = []
rows_wire (r ∷ rs) = row_wire r ++ rows_wire rs

unfoldable pub table_wire : List DecodedRow → List ℕ
unfolding rows_wire
table_wire rs = put_uint 4 (length rs) ++ rows_wire rs

unfoldable pub marks_wire : DecodedMarks → List ℕ
unfolding table_wire
marks_wire m =
    put_uint 5 4
    ++ ((put_uint 0 1 ++ table_wire m.rows)
        ++ ((put_uint 0 2 ++ put_bytes m.cumulative_native_spend)
            ++ ((put_uint 0 3 ++ put_bytes m.lifetime_spend)
                ++ (put_uint 0 4 ++ put_uint 0 m.strict_recovery_counter))))

pub record IsRow (r : DecodedRow) : Type 0 where
  pub authority_len : length r.authority ≡ 32
  pub class_byte : r.scope_class ≤ 255
  pub target_len : length r.scope_target ≤ marks_scope_target_max_len
  pub counter_u64 : IsU64 r.highest_accepted_counter

-- The rows ascend strictly, and the first stands above `prev`.
abbrev pub Ordered : Option DecodedRow → List DecodedRow → Type 0
Ordered prev [] = Unit
Ordered prev (r ∷ rs) = (follows prev r ≡ true) × Ordered (some r) rs

pub record IsMarks (max_rows : ℕ) (m : DecodedMarks) : Type 0 where
  pub each : All IsRow m.rows
  pub ordered : Ordered none m.rows
  pub bounded : length m.rows ≤ max_rows
  pub cumulative_len : length m.cumulative_native_spend ≡ 32
  pub lifetime_len : length m.lifetime_spend ≡ 32
  pub recovery_u64 : IsU64 m.strict_recovery_counter

byte_uint-put_uint :
    (v : ℕ) (rest : List ℕ) → v ≤ 255 → byte_uint (put_uint 0 v ++ rest) ≡ some (v, rest)
unfolding byte_uint
byte_uint-put_uint v rest h = rw (uint-put_uint v rest (omega arith)) (ground arith)

decode_row-row_wire :
    (r : DecodedRow) (rest : List ℕ) → IsRow r → decode_row (row_wire r ++ rest) ≡ some (r, rest)
unfolding decode_row row_wire
decode_row-row_wire r rest h =
    let c = put_uint 0 r.highest_accepted_counter in
    let t = put_bytes r.scope_target in
    let k = put_uint 0 r.scope_class in
    rw (
      append_assoc (put_uint 4 4) (put_bytes r.authority ++ (k ++ (t ++ c))) rest,
      append_assoc (put_bytes r.authority) (k ++ (t ++ c)) rest,
      append_assoc k (t ++ c) rest,
      append_assoc t c rest,
      typed_head-put_uint 4 4 (put_bytes r.authority ++ (k ++ (t ++ (c ++ rest)))) (omega arith)
          (omega arith),
      bstr_exact-put_bytes 32 r.authority (k ++ (t ++ (c ++ rest))) h.authority_len (omega arith),
      byte_uint-put_uint r.scope_class (t ++ (c ++ rest)) h.class_byte,
      bstr-put_bytes marks_scope_target_max_len r.scope_target (c ++ rest) h.target_len
          (omega (arith, h.target_len)),
      uint-put_uint r.highest_accepted_counter rest h.counter_u64,
    )

decode_rows-rows_wire :
    (rs : List DecodedRow) (prev : Option DecodedRow) (rest : List ℕ)
    → All IsRow rs
    → Ordered prev rs
    → decode_rows (length rs) prev (rows_wire rs ++ rest) ≡ some (rs, rest)
unfolding decode_rows rows_wire
decode_rows-rows_wire [] prev rest h o = refl
decode_rows-rows_wire (r ∷ rs) prev rest h o = rw (
  append_assoc (row_wire r) (rows_wire rs) rest,
  decode_row-row_wire r (rows_wire rs ++ rest) h.0,
  o.0,
  decode_rows-rows_wire rs (some r) rest h.1 o.1,
)

length-head_32 : (n : ℕ) → n ≡ 32 → length (put_uint 2 n) ≡ 2
unfolding put_uint
length-head_32 n h = rw h

length-row_wire : (r : DecodedRow) → IsRow r → min_row_bytes ≤ length (row_wire r)
unfolding row_wire put_bytes
length-row_wire r h = simp length-append (
    omega (
      arith,
      h.authority_len,
      length-head_32 (length r.authority) h.authority_len,
      length-put_uint 4 4,
      length-put_uint 0 r.scope_class,
      length-put_uint 2 (length r.scope_target),
      length-put_uint 0 r.highest_accepted_counter,
    ))

length-rows_wire :
    (rs : List DecodedRow) → All IsRow rs → length rs * min_row_bytes ≤ length (rows_wire rs)
unfolding rows_wire
length-rows_wire [] h = omega arith
length-rows_wire (r ∷ rs) h = omega (
  arith,
  length-append (row_wire r) (rows_wire rs),
  length-row_wire r h.0,
  length-rows_wire rs h.1,
)

row_table-table_wire :
    (max_rows : ℕ) (rs : List DecodedRow) (rest : List ℕ)
    → All IsRow rs
    → Ordered none rs
    → length rs ≤ max_rows
    → IsU64 max_rows
    → row_table max_rows (table_wire rs ++ rest) ≡ some (rs, rest)
unfolding row_table table_wire
row_table-table_wire max_rows rs rest h o b u =
    let body = rows_wire rs ++ rest in
    let fits : length rs * min_row_bytes ≤ length body =
      omega (arith, length-rows_wire rs h, length-append (rows_wire rs) rest) in
    rw (
      append_assoc (put_uint 4 (length rs)) (rows_wire rs) rest,
      typed_head-put_uint 4 (length rs) body (omega arith) (omega arith),
      ltb_of_le max_rows (length rs) b,
      ltb_of_le (length body) (length rs * min_row_bytes) fits,
      decode_rows-rows_wire rs none rest h o,
    )

-- Under a `u64` row limit the decoder returns the marks that were written, whatever they are within
-- the bounds and with ascending rows.
pub decode-marks_wire :
    (max_rows : ℕ) (m : DecodedMarks)
    → IsMarks max_rows m
    → IsU64 max_rows
    → strict_decode_marks_payload (marks_wire m) max_rows ≡ some m
unfolding strict_decode_marks_payload marks_wire
decode-marks_wire max_rows m h u =
    let f4 = put_uint 0 4 ++ put_uint 0 m.strict_recovery_counter in
    let b3 = put_bytes m.lifetime_spend in
    let f3 = put_uint 0 3 ++ b3 in
    let b2 = put_bytes m.cumulative_native_spend in
    let f2 = put_uint 0 2 ++ b2 in
    let t = table_wire m.rows in
    let last : uint (put_uint 0 m.strict_recovery_counter) ≡ some (m.strict_recovery_counter, []) =
      subst (λ s. uint s ≡ some (m.strict_recovery_counter, []))
        (append-nil (put_uint 0 m.strict_recovery_counter))
        (uint-put_uint m.strict_recovery_counter [] h.recovery_u64) in
    rw (
      typed_head-put_uint 5 4 ((put_uint 0 1 ++ t) ++ (f2 ++ (f3 ++ f4))) (omega arith)
          (omega arith),
      append_assoc (put_uint 0 1) t (f2 ++ (f3 ++ f4)),
      field-put 1 (row_table max_rows) (t ++ (f2 ++ (f3 ++ f4))) (omega arith),
      row_table-table_wire max_rows m.rows (f2 ++ (f3 ++ f4)) h.each h.ordered h.bounded u,
      append_assoc (put_uint 0 2) b2 (f3 ++ f4),
      field-put 2 (bstr_exact 32) (b2 ++ (f3 ++ f4)) (omega arith),
      bstr_exact-put_bytes 32 m.cumulative_native_spend (f3 ++ f4) h.cumulative_len (omega arith),
      append_assoc (put_uint 0 3) b3 f4,
      field-put 3 (bstr_exact 32) (b3 ++ f4) (omega arith),
      bstr_exact-put_bytes 32 m.lifetime_spend f4 h.lifetime_len (omega arith),
      field-put 4 uint (put_uint 0 m.strict_recovery_counter) (omega arith),
      last,
    )
