-- ===== src/Envelope/MarksSound.antt =====
-- `strict_decode_marks_payload` of agent_cbor.rs: what an accepted input is.
use d_hsm.Prelude.{
  ℕ, zero, suc, ◌*◌, ◌≤◌, ◌≡◌, refl, sym, ap, ◌∙◌, subst, List, ◌++◌, append_assoc, append-nil, not,
  ◌||◌, Option, none, some, arith, ltb, leb, leb→le, ◌==◌, ==_iff, >>=-eq-some, require,
  require-true, eq_of_some, not-eq_true, or-eq_false, le_of_ltb, length, All,
}
use d_hsm.Prelude.Bytes.{IsByte, IsU64}
use d_hsm.Cbor.Encode.{put_uint, put_bytes}
use d_hsm.Cbor.Parser.{typed_head, uint, bstr, bstr_exact, is_empty}
use d_hsm.Cbor.Typed.{Exact, typed_head_sound, uint_sound, bstr_sound, bstr_exact_sound}
use d_hsm.Cbor.Canonical.Sound.{is_empty_sound}
use d_hsm.Envelope.Fields.{field, field_sound}
use d_hsm.Envelope.Marks.{
  DecodedRow, DecodedMarks, follows, byte_uint, decode_row, decode_rows, row_table,
  strict_decode_marks_payload, marks_scope_target_max_len, min_row_bytes,
}
use d_hsm.Envelope.MarksExact.{row_wire, rows_wire, table_wire, marks_wire, IsRow, IsMarks, Ordered}

-- Two pieces read one after the other, in the writers' bracketing.
then_wrote :
    {s s1 : List ℕ} (xs ys rest : List ℕ) → s ≡ xs ++ s1 → s1 ≡ ys ++ rest → s ≡ (xs ++ ys) ++ rest
then_wrote xs ys rest e f = e ∙ ap (λ t. xs ++ t) f ∙ sym (append_assoc xs ys rest)

byte_uint_sound : Exact byte_uint (put_uint 0) (λ v. v ≤ 255)
unfolding byte_uint
byte_uint_sound s v rest hs h =
    let ((v', r), first, h1) = >>=-eq-some (uint s) _ h in
    let (u, small, h2) = >>=-eq-some (require (leb v' 0xff)) _ h1 in
    let (split, hv, hr) = uint_sound s v' r hs first in
    subst (λ p. (s ≡ put_uint 0 p.0 ++ p.1) × (p.0 ≤ 255) × All IsByte p.1) (eq_of_some h2)
      (split, leb→le v' 255 (require-true _ small), hr)

decode_row_sound : Exact decode_row row_wire IsRow
unfolding decode_row row_wire
decode_row_sound s row rest hs h =
    let ((n, s0), r0, h0) = >>=-eq-some (typed_head 4 s) _ h in
    let (u, four, h1) = >>=-eq-some (require (n == 4)) _ h0 in
    let ((authority, s1), r1, h2) = >>=-eq-some (bstr_exact 32 s0) _ h1 in
    let ((class, s2), r2, h3) = >>=-eq-some (byte_uint s1) _ h2 in
    let ((target, s3), r3, h4) = >>=-eq-some (bstr marks_scope_target_max_len s2) _ h3 in
    let ((counter, s4), r4, h5) = >>=-eq-some (uint s3) _ h4 in
    let (e0, v0, b0) = typed_head_sound 4 s n s0 hs r0 in
    let (e1, v1, b1) = bstr_exact_sound 32 s0 authority s1 b0 r1 in
    let (e2, v2, b2) = byte_uint_sound s1 class s2 b1 r2 in
    let (e3, v3, b3) = bstr_sound marks_scope_target_max_len s2 target s3 b2 r3 in
    let (e4, v4, b4) = uint_sound s3 counter s4 b3 r4 in
    let header = subst (λ k. s ≡ put_uint 4 k ++ s0) ((==_iff n 4).0 (require-true _ four)) e0 in
    let tail3 = then_wrote (put_bytes target) (put_uint 0 counter) s4 e3 e4 in
    let tail2 =
      then_wrote (put_uint 0 class) (put_bytes target ++ put_uint 0 counter) s4 e2 tail3 in
    let tail1 =
      then_wrote (put_bytes authority)
        (put_uint 0 class ++ (put_bytes target ++ put_uint 0 counter)) s4 e1 tail2 in
    subst (λ p. (s ≡ row_wire p.0 ++ p.1) × IsRow p.0 × All IsByte p.1) (eq_of_some h5)
      (
        then_wrote (put_uint 4 4)
            (put_bytes authority ++ (put_uint 0 class ++ (put_bytes target ++ put_uint 0 counter)))
            s4 header tail1,
        record { authority_len = v1; class_byte = v2; target_len = v3.0; counter_u64 = v4 },
        b4,
      )

abbrev RowsRead : ℕ → Option DecodedRow → List ℕ → List DecodedRow × List ℕ → Type 0
RowsRead n prev s p =
    (s ≡ rows_wire p.0 ++ p.1)
    × (length p.0 ≡ n)
    × All IsRow p.0
    × Ordered prev p.0
    × All IsByte p.1

decode_rows_sound :
    (n : ℕ) (prev : Option DecodedRow) (s : List ℕ) (rs : List DecodedRow) (rest : List ℕ)
    → All IsByte s
    → decode_rows n prev s ≡ some (rs, rest)
    → RowsRead n prev s (rs, rest)
unfolding decode_rows rows_wire
decode_rows_sound zero prev s rs rest hs h =
    subst (RowsRead zero prev s) (eq_of_some h) (refl, refl, tt, tt, hs)
decode_rows_sound (suc n) prev s rs rest hs h =
    let ((row, s1), r0, h0) = >>=-eq-some (decode_row s) _ h in
    let (u, above, h1) = >>=-eq-some (require (follows prev row)) _ h0 in
    let ((rows, s2), r1, h2) = >>=-eq-some (decode_rows n (some row) s1) _ h1 in
    let (e0, v0, b0) = decode_row_sound s row s1 hs r0 in
    let (e1, len, each, ordered, b1) = decode_rows_sound n (some row) s1 rows s2 b0 r1 in
    subst (RowsRead (suc n) prev s) (eq_of_some h2) (
      then_wrote (row_wire row) (rows_wire rows) s2 e0 e1,
      ap suc len,
      (v0, each),
      (require-true _ above, ordered),
      b1,
    )

abbrev IsTable : ℕ → List DecodedRow → Type 0
IsTable max_rows rs = All IsRow rs × Ordered none rs × (length rs ≤ max_rows)

row_table_sound : (max_rows : ℕ) → Exact (row_table max_rows) table_wire (IsTable max_rows)
unfolding row_table table_wire
row_table_sound max_rows s rs rest hs h =
    let ((n, s1), r0, h0) = >>=-eq-some (typed_head 4 s) _ h in
    let over = ltb max_rows n || ltb (length s1) (n * min_row_bytes) in
    let (u, small, h1) = >>=-eq-some (require (not over)) _ h0 in
    let (e0, v0, b0) = typed_head_sound 4 s n s1 hs r0 in
    let (e1, len, each, ordered, b1) = decode_rows_sound n none s1 rs rest b0 h1 in
    let within =
      le_of_ltb max_rows n (or-eq_false _ _ (not-eq_true over (require-true _ small))).0 in
    (
      then_wrote (put_uint 4 (length rs)) (rows_wire rs) rest
          (subst (λ k. s ≡ put_uint 4 k ++ s1) (sym len) e0) e1,
      (each, ordered, omega (arith, len, within)),
      b1,
    )

-- A string of bytes that the decoder accepts is the encoding of the result, and the result is
-- bounded and strictly ordered.
pub decode-IsMarks_sound :
    (wire : List ℕ) (max_rows : ℕ) (m : DecodedMarks)
    → All IsByte wire
    → strict_decode_marks_payload wire max_rows ≡ some m
    → (wire ≡ marks_wire m) × IsMarks max_rows m
unfolding strict_decode_marks_payload marks_wire
decode-IsMarks_sound wire max_rows m hw h =
    let ((pairs, s0), r0, h0) = >>=-eq-some (typed_head 5 wire) _ h in
    let (u, four, h1) = >>=-eq-some (require (pairs == 4)) _ h0 in
    let ((rows, s1), r1, h2) = >>=-eq-some (field 1 (row_table max_rows) s0) _ h1 in
    let ((cum, s2), r2, h3) = >>=-eq-some (field 2 (bstr_exact 32) s1) _ h2 in
    let ((life, s3), r3, h4) = >>=-eq-some (field 3 (bstr_exact 32) s2) _ h3 in
    let ((recovery, s4), r4, h5) = >>=-eq-some (field 4 uint s3) _ h4 in
    let (u', over, h6) = >>=-eq-some (require (is_empty s4)) _ h5 in
    let (e0, v0, b0) = typed_head_sound 5 wire pairs s0 hw r0 in
    let (e1, v1, b1) =
      field_sound 1 (row_table max_rows) table_wire (IsTable max_rows) (row_table_sound max_rows) s0
        rows s1 b0 r1 in
    let (e2, v2, b2) =
      field_sound 2 (bstr_exact 32) put_bytes _ (bstr_exact_sound 32) s1 cum s2 b1 r2 in
    let (e3, v3, b3) =
      field_sound 3 (bstr_exact 32) put_bytes _ (bstr_exact_sound 32) s2 life s3 b2 r3 in
    let (e4, v4, b4) = field_sound 4 uint (put_uint 0) IsU64 uint_sound s3 recovery s4 b3 r4 in
    let header =
      subst (λ k. wire ≡ put_uint 5 k ++ s0) ((==_iff pairs 4).0 (require-true _ four)) e0 in
    let f1 = put_uint 0 1 ++ table_wire rows in
    let f2 = put_uint 0 2 ++ put_bytes cum in
    let f3 = put_uint 0 3 ++ put_bytes life in
    let f4 = put_uint 0 4 ++ put_uint 0 recovery in
    let tail3 = then_wrote f3 f4 s4 e3 e4 in
    let tail2 = then_wrote f2 (f3 ++ f4) s4 e2 tail3 in
    let tail1 = then_wrote f1 (f2 ++ (f3 ++ f4)) s4 e1 tail2 in
    let whole = then_wrote (put_uint 5 4) (f1 ++ (f2 ++ (f3 ++ f4))) s4 header tail1 in
    let done = is_empty_sound s4 (require-true _ over) in
    subst (λ k. (wire ≡ marks_wire k) × IsMarks max_rows k) (eq_of_some h6)
      (
        whole
            ∙ ap (λ t. (put_uint 5 4 ++ (f1 ++ (f2 ++ (f3 ++ f4)))) ++ t) done
            ∙ append-nil (put_uint 5 4 ++ (f1 ++ (f2 ++ (f3 ++ f4)))),
        record {
          each = v1.0;
          ordered = v1.1;
          bounded = v1.2;
          cumulative_len = v2;
          lifetime_len = v3;
          recovery_u64 = v4;
        },
      )
