-- ===== src/Keystore/Marks.antt =====
-- `encode_marks_payload`, `compute_local_marks_digest` and `seed_marks_forward` of
-- agent_keystore.rs. `sha3_256` is the hash of the sha3 crate.
pub mod Sorted
use d_hsm.Prelude.{
  ℕ, List, [], ◌∷◌, ◌++◌, map, Bool, true, false, not, ltb, ◌==◌, if◌then◌else◌, length,
}
use d_hsm.Prelude.Bytes.{bytes_eq, bytes_lt}
use d_hsm.Cbor.Encode.{put_uint, put_bytes}
use d_hsm.Envelope.Marks.{DecodedMarks, DecodedRow}
use d_hsm.Keystore.Types.{KeystoreBody, CounterEntry, Result}
use d_hsm.Keystore.Validate.{validate}

-- The comparison of `sort_by` is `Less`.
unfoldable pub entry_lt : CounterEntry → CounterEntry → Bool
unfolding bytes_lt bytes_eq
entry_lt a b =
    if bytes_lt a.authority b.authority
    then true
    else if not (bytes_eq a.authority b.authority)
    then false
    else if ltb a.scope_class b.scope_class
    then true
    else if not (a.scope_class == b.scope_class)
    then false
    else if bytes_lt a.scope_target b.scope_target
    then true
    else if not (bytes_eq a.scope_target b.scope_target)
    then false
    else bytes_lt a.environment_identifier b.environment_identifier

unfoldable pub insert_entry : CounterEntry → List CounterEntry → List CounterEntry
unfolding entry_lt
insert_entry a [] = a ∷ []
insert_entry a (b ∷ bs) = if entry_lt b a then b ∷ insert_entry a bs else a ∷ b ∷ bs

-- `sort_by`, a stable sort.
unfoldable pub sort_entries : List CounterEntry → List CounterEntry
unfolding insert_entry
sort_entries [] = []
sort_entries (a ∷ rest) = insert_entry a (sort_entries rest)

-- The body of the loop over the rows, for every row.
unfoldable pub put_rows : List CounterEntry → List ℕ
unfolding put_uint put_bytes
put_rows [] = []
put_rows (r ∷ rs) =
    put_uint 4 4
    ++ (put_bytes r.authority
        ++ (put_uint 0 r.scope_class
            ++ (put_bytes r.scope_target
                ++ (put_uint 0 r.highest_accepted_counter ++ put_rows rs))))

unfoldable pub encode_marks_payload : KeystoreBody → List ℕ
unfolding sort_entries put_rows put_uint put_bytes
encode_marks_payload body =
    let rows = sort_entries body.counters in
    put_uint 5 4
    ++ (put_uint 0 1
        ++ (put_uint 4 (length rows)
            ++ (put_rows rows
                ++ (put_uint 0 2
                    ++ (put_bytes body.faucet.cumulative_native_spend
                        ++ (put_uint 0 3
                            ++ (put_bytes body.faucet.lifetime_spend
                                ++ (put_uint 0 4 ++ put_uint 0 body.strict_recovery_counter))))))))

abbrev pub marks_domain : List ℕ
marks_domain =
    b'2' ∷ b'd' ∷ b'-' ∷ b'h' ∷ b's' ∷ b'm' ∷ b'/' ∷ b'a' ∷ b'g' ∷ b'e' ∷ b'n' ∷ b't' ∷ b'-' ∷ b'a'
    ∷ b'n' ∷ b'c' ∷ b'h' ∷ b'o' ∷ b'r' ∷ b'-' ∷ b'm' ∷ b'a' ∷ b'r' ∷ b'k' ∷ b's' ∷ b'/' ∷ b'v'
    ∷ b'1' ∷ 0 ∷ []

unfoldable pub compute_local_marks_digest : (List ℕ → List ℕ) → KeystoreBody → List ℕ
unfolding encode_marks_payload
compute_local_marks_digest sha3_256 body = sha3_256 (marks_domain ++ encode_marks_payload body)

abbrev pub seeded_row : List ℕ → DecodedRow → CounterEntry
seeded_row env r = record {
  authority = r.authority;
  environment_identifier = env;
  scope_class = r.scope_class;
  scope_target = r.scope_target;
  highest_accepted_counter = r.highest_accepted_counter;
}

-- The body after the assignments, which the caller drops when `validate` refuses it.
abbrev pub seeded : KeystoreBody → DecodedMarks → ℕ → KeystoreBody
seeded body m epoch = record body {
  counters = map (seeded_row body.config.environment_identifier) m.rows;
  faucet = record body.faucet {
    cumulative_native_spend = m.cumulative_native_spend;
    lifetime_spend = m.lifetime_spend;
  };
  strict_recovery_counter = m.strict_recovery_counter;
  freshness_epoch = epoch;
}

unfoldable pub seed_marks_forward :
    KeystoreBody → DecodedMarks → ℕ → Result (Unit {0}) × KeystoreBody
unfolding validate
seed_marks_forward body m epoch = (validate (seeded body m epoch), seeded body m epoch)
