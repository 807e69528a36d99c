-- ===== src/Boot/Adopt.antt =====
-- `execute_adopt_forward` and `marks_dominate_local` of agent_boot.rs.
use d_hsm.Prelude.{
  ℕ, List, [], ◌∷◌, Bool, true, false, not, ◌&&◌, Option, none, some, leb, ◌==◌, if◌then◌else◌,
}
use d_hsm.Prelude.Bytes.{bytes_eq, bytes_lt}
use d_hsm.Prelude.Attempt.{Attempt, done, failed, ensure, ok_or, map_err, ◌>>=◌, ◌>>◌}
use d_hsm.Crypto.{Crypto}
use d_hsm.Envelope.Marks.{DecodedRow, DecodedMarks, strict_decode_marks_payload}
use d_hsm.Keystore.Types.{KeystoreBody, CounterEntry, Result, ok, err, max_counter_entries}
use d_hsm.Keystore.Marks.{seed_marks_forward, compute_local_marks_digest}
use d_hsm.Anchor.Types.{AnchorState}
use d_hsm.Anchor.Marks.{MarksError, verify_marks_response_bytes}

pub data AdoptForwardFail : Type 0 where
  marks_verify : MarksError → AdoptForwardFail
  marks_decode hash_mismatch belt_regression seed : AdoptForwardFail

unfoldable pub find_adopted : CounterEntry → List DecodedRow → Option DecodedRow
unfolding bytes_eq
find_adopted l [] = none
find_adopted l (r ∷ rs) =
    if bytes_eq r.authority l.authority
      && r.scope_class == l.scope_class
      && bytes_eq r.scope_target l.scope_target
    then some r
    else find_adopted l rs

abbrev pub not_lowered : CounterEntry → Option DecodedRow → Bool
not_lowered l none = false
not_lowered l (some r) = leb l.highest_accepted_counter r.highest_accepted_counter

-- The loop over the local rows.
unfoldable pub rows_dominate : List DecodedRow → List CounterEntry → Bool
unfolding find_adopted
rows_dominate rows [] = true
rows_dominate rows (l ∷ ls) = not_lowered l (find_adopted l rows) && rows_dominate rows ls

unfoldable pub marks_dominate_local : DecodedMarks → KeystoreBody → Bool
unfolding rows_dominate bytes_lt
marks_dominate_local m body =
    rows_dominate m.rows body.counters
    && not (bytes_lt m.cumulative_native_spend body.faucet.cumulative_native_spend)
    && not (bytes_lt m.lifetime_spend body.faucet.lifetime_spend)
    && leb body.strict_recovery_counter m.strict_recovery_counter

-- `.map_err(|_| AdoptForwardFail::Seed)?`.
abbrev pub seeded_ok : Result (Unit {0}) → Attempt AdoptForwardFail (Unit {0})
seeded_ok (ok u) = done u
seeded_ok (err e) = failed seed

unfoldable pub execute_adopt_forward :
    Crypto → List ℕ → KeystoreBody → AnchorState → List ℕ → Attempt AdoptForwardFail KeystoreBody
unfolding verify_marks_response_bytes strict_decode_marks_payload seed_marks_forward
    compute_local_marks_digest marks_dominate_local
execute_adopt_forward c marks_bytes body st nonce = do
  marks_payload ←
      map_err marks_verify (verify_marks_response_bytes c marks_bytes nonce st.epoch body.config)
  m ← ok_or (strict_decode_marks_payload marks_payload max_counter_entries) marks_decode
  let (result, candidate) = seed_marks_forward body m st.epoch
  seeded_ok result
  ensure (c.ct_eq (compute_local_marks_digest c.sha3_256 candidate) st.marks_digest) hash_mismatch
  ensure (marks_dominate_local m body) belt_regression
  done candidate
