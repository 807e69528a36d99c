-- ===== src/Keystore/Marks/Sorted.antt =====
-- The encoder of agent_keystore.rs on a body that was seeded with what the decoder of agent_cbor.rs
-- returned.
use d_hsm.Prelude.{
  ℕ, ◌≡◌, refl, ap, ◌∙◌, subst, List, [], ◌∷◌, ◌++◌, append_assoc, map, true, false, Option, none,
  some, arith, length, Bool-cases, inl, inr,
}
use d_hsm.Prelude.Bytes.{bytes_eq, bytes_eq_sound, bytes_lt}
use d_hsm.Envelope.Marks.{DecodedMarks, DecodedRow, row_key_lt}
use d_hsm.Envelope.MarksExact.{row_wire, rows_wire, table_wire, marks_wire, Ordered, IsMarks}
use d_hsm.Keystore.Types.{KeystoreBody}
use d_hsm.Keystore.Marks.{
  entry_lt, insert_entry, sort_entries, put_rows, encode_marks_payload, seeded_row, seeded,
}

bytes_lt_asym : (xs ys : List ℕ) → bytes_lt xs ys ≡ true → bytes_lt ys xs ≡ false
unfolding bytes_lt
bytes_lt_asym [] [] h = cc
bytes_lt_asym [] (y ∷ ys) h = refl
bytes_lt_asym (x ∷ xs) [] h = cc
bytes_lt_asym (x ∷ xs) (y ∷ ys) h = ground (arith, bytes_lt_asym xs ys)

bytes_lt_irrefl : (xs : List ℕ) → bytes_lt xs xs ≡ false
unfolding bytes_lt
bytes_lt_irrefl [] = refl
bytes_lt_irrefl (x ∷ xs) = ground (arith, bytes_lt_irrefl xs)

bytes_eq_sym : (xs ys : List ℕ) → bytes_eq xs ys ≡ bytes_eq ys xs
unfolding bytes_eq
bytes_eq_sym [] [] = refl
bytes_eq_sym [] (y ∷ ys) = refl
bytes_eq_sym (x ∷ xs) [] = refl
bytes_eq_sym (x ∷ xs) (y ∷ ys) = ground (arith, bytes_eq_sym xs ys)

bytes_lt_ne : (xs ys : List ℕ) → bytes_lt xs ys ≡ true → bytes_eq ys xs ≡ false
bytes_lt_ne xs ys h = elim (Bool-cases (bytes_eq ys xs)) [
  | inl same ↦ absurd (cc (h, bytes_lt_irrefl xs, bytes_eq_sound ys xs same))
  | inr apart ↦ apart
]

bytes_lt_of_eq : (xs ys : List ℕ) → bytes_eq ys xs ≡ true → bytes_lt ys xs ≡ false
bytes_lt_of_eq xs ys h =
    subst (λ z. bytes_lt ys z ≡ false) (bytes_eq_sound ys xs h) (bytes_lt_irrefl ys)

-- A row that stands above another in the payload's order is not sorted before it.
entry_lt-row_key_lt :
    (env : List ℕ) (a b : DecodedRow)
    → row_key_lt a b ≡ true
    → entry_lt (seeded_row env b) (seeded_row env a) ≡ false
unfolding entry_lt row_key_lt
entry_lt-row_key_lt env a b h = ground (
  arith,
  bytes_lt_asym a.authority b.authority,
  bytes_lt_ne a.authority b.authority,
  bytes_eq_sym a.authority b.authority,
  bytes_lt_asym a.scope_target b.scope_target,
  bytes_lt_of_eq a.authority b.authority,
  bytes_lt_of_eq a.scope_target b.scope_target,
  bytes_lt_irrefl env,
  bytes_lt_ne a.scope_target b.scope_target,
)

sort_entries-Ordered :
    (env : List ℕ) (prev : Option DecodedRow) (rs : List DecodedRow)
    → Ordered prev rs
    → sort_entries (map (seeded_row env) rs) ≡ map (seeded_row env) rs
unfolding sort_entries insert_entry
sort_entries-Ordered env prev [] h = refl
sort_entries-Ordered env prev (r ∷ []) h = refl
sort_entries-Ordered env prev (r ∷ s ∷ rs) h =
    ap (insert_entry (seeded_row env r)) (sort_entries-Ordered env (some r) (s ∷ rs) h.1)
    ∙ rw (entry_lt-row_key_lt env r s h.1.0) refl

length-map_rows :
    (env : List ℕ) (rs : List DecodedRow) → length (map (seeded_row env) rs) ≡ length rs
length-map_rows env [] = refl
length-map_rows env (r ∷ rs) = omega (arith, length-map_rows env rs)

put_rows_append :
    (env : List ℕ) (rs : List DecodedRow) (rest : List ℕ)
    → put_rows (map (seeded_row env) rs) ++ rest ≡ rows_wire rs ++ rest
unfolding put_rows rows_wire row_wire
put_rows_append env [] rest = refl
put_rows_append env (r ∷ rs) rest = simp (append_assoc, put_rows_append env rs rest)

-- Seeding the body from marks within the format and encoding its marks gives the bytes of those
-- marks.
pub encode_marks_payload-seeded :
    (body : KeystoreBody) (max_rows : ℕ) (m : DecodedMarks) (epoch : ℕ)
    → IsMarks max_rows m
    → encode_marks_payload (seeded body m epoch) ≡ marks_wire m
unfolding encode_marks_payload marks_wire table_wire
encode_marks_payload-seeded body max_rows m epoch h =
    let env = body.config.environment_identifier in
    rw (sort_entries-Ordered env none m.rows h.ordered, length-map_rows env m.rows)
      (simp (append_assoc, put_rows_append env m.rows))
