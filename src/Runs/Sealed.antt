-- ===== src/Runs/Sealed.antt =====
-- Runs of the sealed body's operations and of the 256-bit arithmetic.
use d_hsm.Prelude.{
  ◌<◌, ◌↔◌, All, ◌≤◌, ℕ, ◌+◌, ◌*◌, ◌^◌, ◌≡◌, refl, List, [], ◌∷◌, none, some, arith, ltb,
  if◌then◌else◌, length,
}
use d_hsm.Prelude.Bytes.{be_value, be_bytes}
use d_hsm.U256.{checked_add, checked_mul_u64, from_minimal_be}
use d_hsm.U256.Exact.{checked_add_exact, checked_mul_u64_exact, from_minimal_be_exact}
use d_hsm.Keystore.Types.{
  KeystoreBody, FaucetState, AuditRing, ok, err, counter_regression, audit_backpressure,
}
use d_hsm.Keystore.Faucet.{accept_and_debit, accepted}
use d_hsm.Keystore.Faucet.Gate.{Debited, accept_and_debit_sound}
use d_hsm.Keystore.Counter.{row_key, advance_counter, new_row}
use d_hsm.Keystore.Counter.Forward.{Advanced, advance_counter-Advanced, advance_counter_replay}
use d_hsm.Keystore.Audit.{append_ring, export_ring, pushed, audit_record}
use d_hsm.Keystore.Audit.Ring.{IsRing, Appended, append_ring-Appended, export-append}
use d_hsm.Keystore.Audit.Full.{append_ring_full_iff}
use d_hsm.Keystore.Validate.{validate}
use d_hsm.Keystore.Validate.Sound.{IsBody, validate_sound}
use d_hsm.Runs.Data.{body, faucet, ring, fact, word, all_bytes_sound, word-IsWord, faucet-IsFaucet}

checked_add_exact_example : checked_add (word 1) (word 2) ≡ (
    if ltb (be_value (word 1) + be_value (word 2)) (2 ^ 256)
    then some (be_bytes 32 (be_value (word 1) + be_value (word 2)))
    else none)
checked_add_exact_example =
    checked_add_exact (word 1) (word 2) (word-IsWord 1 refl) (word-IsWord 2 refl)

checked_mul_u64_exact_example : checked_mul_u64 (word 255) 2 ≡ (
    if ltb (be_value (word 255) * 2) (2 ^ 256)
    then some (be_bytes 32 (be_value (word 255) * 2))
    else none)
checked_mul_u64_exact_example = checked_mul_u64_exact (word 255) 2 (word-IsWord 255 refl)

abbrev short : List ℕ
short = 1 ∷ 0 ∷ []

from_minimal_be_exact_example :
    from_minimal_be short
    ≡ (if ltb 32 (length short) then none else some (be_bytes 32 (be_value short)))
from_minimal_be_exact_example = from_minimal_be_exact short (all_bytes_sound short refl)

abbrev spent : FaucetState
spent = record faucet { cumulative_native_spend = word 1; lifetime_spend = word 1 }

dispensed : accept_and_debit faucet (word 1) 0 (word 0) ≡ accepted spent
unfolding accept_and_debit be_bytes
dispensed = refl

accept_and_debit_sound_example : Debited faucet spent (word 1) 0 (word 0)
accept_and_debit_sound_example =
    accept_and_debit_sound faucet (word 1) 0 (word 0) spent faucet-IsFaucet (word-IsWord 1 refl)
      (word-IsWord 0 refl) dispensed

abbrev target : List ℕ
target = b't' ∷ []

abbrev moved : KeystoreBody
moved = record body { counters = new_row (row_key body (word 2) 0 target) 4 ∷ [] }

moves : advance_counter body (word 2) 0 target 4 ≡ ok moved
unfolding advance_counter
moves = refl

advance_counter-Advanced_example :
    Advanced (row_key body (word 2) 0 target) 4 body.counters moved.counters
    × (moved ≡ record body { counters = moved.counters })
advance_counter-Advanced_example = advance_counter-Advanced body (word 2) 0 target 4 moved moves

advance_counter_replay_example : advance_counter moved (word 2) 0 target 3 ≡ err counter_regression
advance_counter_replay_example =
    advance_counter_replay body (word 2) 0 target 4 3 moved moves (omega arith) (omega arith)

ring-IsRing : IsRing ring
ring-IsRing = record { ascending = tt; bounded = omega arith; exported = omega arith }

abbrev ring_after : AuditRing
ring_after = record ring { records = audit_record ring fact ∷ []; next_seq = 2 }

appended : append_ring ring fact ≡ ok ring_after
unfolding append_ring
appended = refl

append_ring-Appended_example : Appended ring fact ring_after
append_ring-Appended_example = append_ring-Appended ring fact ring_after ring-IsRing appended

export-append_example :
    append_ring (export_ring ring_after) fact
    ≡ ok (record (export_ring ring_after) {
      records = pushed (export_ring ring_after) (audit_record (export_ring ring_after) fact);
      next_seq = (export_ring ring_after).next_seq + 1;
    })
export-append_example = export-append ring_after fact (omega arith) (omega arith)

body_validates : validate body ≡ ok tt
unfolding validate
body_validates = refl

validate_sound_example : IsBody body
validate_sound_example = validate_sound body body_validates

-- Two records, of which none was exported, fill the ring.
abbrev ring_full : AuditRing
ring_full = record ring {
  records = audit_record ring fact ∷ audit_record ring_after fact ∷ [];
  capacity = 2;
  next_seq = 3;
}

ring_full-IsRing : IsRing ring_full
ring_full-IsRing = record {
  ascending = (omega arith, omega arith);
  bounded = omega arith;
  exported = omega arith;
}

append_ring_full_iff_example : (append_ring ring_full fact ≡ err audit_backpressure) ↔ (
    (ring_full.capacity ≤ length ring_full.records)
    × All (λ a. ring_full.last_exported_seq < a.seq) ring_full.records)
append_ring_full_iff_example =
    append_ring_full_iff ring_full fact ring_full-IsRing (omega arith, (omega arith, tt))
      (omega arith)
