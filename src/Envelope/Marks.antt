-- ===== src/Envelope/Marks.antt =====
-- `DecodedRow`, `DecodedMarks` and `strict_decode_marks_payload` of agent_cbor.rs.
use d_hsm.Prelude.{
  ℕ, zero, suc, ◌*◌, List, [], ◌∷◌, Bool, true, false, not, ◌||◌, Option, none, some, ltb, leb,
  ◌==◌, if◌then◌else◌, ◌>>=◌, ◌>>◌, require, length,
}
use d_hsm.Prelude.Bytes.{bytes_eq, bytes_lt}
use d_hsm.Cbor.Parser.{Reader, typed_head, uint, bstr, bstr_exact, is_empty, max_str_len}
use d_hsm.Envelope.Fields.{field}

-- `MARKS_SCOPE_TARGET_MAX_LEN`.
abbrev pub marks_scope_target_max_len : ℕ
marks_scope_target_max_len = max_str_len

pub record DecodedRow : Type 0 where
  pub authority : List ℕ
  pub scope_class : ℕ
  pub scope_target : List ℕ
  pub highest_accepted_counter : ℕ

pub record DecodedMarks : Type 0 where
  pub rows : List DecodedRow
  pub cumulative_native_spend : List ℕ
  pub lifetime_spend : List ℕ
  pub strict_recovery_counter : ℕ

-- `prev < key` of the triples `(authority, scope_class, scope_target)`.
unfoldable pub row_key_lt : DecodedRow → DecodedRow → Bool
unfolding bytes_lt bytes_eq
row_key_lt prev row =
    if bytes_lt prev.authority row.authority
    then true
    else if not (bytes_eq prev.authority row.authority)
    then false
    else if ltb prev.scope_class row.scope_class
    then true
    else if not (prev.scope_class == row.scope_class)
    then false
    else bytes_lt prev.scope_target row.scope_target

abbrev pub follows : Option DecodedRow → DecodedRow → Bool
follows none row = true
follows (some prev) row = row_key_lt prev row

-- `u8::try_from(p.uint()?)`.
unfoldable pub byte_uint : Reader ℕ
unfolding uint
byte_uint s = do (v, rest) ← uint s; require (leb v 0xff); some (v, rest)

unfoldable pub decode_row : Reader DecodedRow
unfolding typed_head bstr bstr_exact uint byte_uint
decode_row s = do
  (n, s0) ← typed_head 4 s
  require (n == 4)
  (authority, s1) ← bstr_exact 32 s0
  (scope_class, s2) ← byte_uint s1
  (scope_target, s3) ← bstr marks_scope_target_max_len s2
  (counter, s4) ← uint s3
  some (
    record {
      authority = authority;
      scope_class = scope_class;
      scope_target = scope_target;
      highest_accepted_counter = counter;
    },
    s4,
  )

-- The row loop; `prev` is the row before.
unfoldable pub decode_rows : ℕ → Option DecodedRow → Reader (List DecodedRow)
unfolding decode_row row_key_lt
decode_rows zero prev s = some ([], s)
decode_rows (suc n) prev s = do
  (row, s1) ← decode_row s
  require (follows prev row)
  (rows, s2) ← decode_rows n (some row) s1
  some (row ∷ rows, s2)

abbrev pub min_row_bytes : ℕ
min_row_bytes = 38

-- Key 1: the array header, its two bounds, and the rows.
unfoldable pub row_table : ℕ → Reader (List DecodedRow)
unfolding typed_head decode_rows
row_table max_rows s = do
  (n_rows, s1) ← typed_head 4 s
  require (not (ltb max_rows n_rows || ltb (length s1) (n_rows * min_row_bytes)))
  decode_rows n_rows none s1

unfoldable pub strict_decode_marks_payload : List ℕ → ℕ → Option DecodedMarks
unfolding typed_head uint bstr_exact field row_table
strict_decode_marks_payload wire max_rows = do
  (pairs, s0) ← typed_head 5 wire
  require (pairs == 4)
  (rows, s1) ← field 1 (row_table max_rows) s0
  (cumulative, s2) ← field 2 (bstr_exact 32) s1
  (lifetime, s3) ← field 3 (bstr_exact 32) s2
  (recovery, s4) ← field 4 uint s3
  require (is_empty s4)
  some (record {
    rows = rows;
    cumulative_native_spend = cumulative;
    lifetime_spend = lifetime;
    strict_recovery_counter = recovery;
  })
