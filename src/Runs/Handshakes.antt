-- ===== src/Runs/Handshakes.antt =====
-- Runs of the boot handshake: an anchor one epoch ahead is adopted, and one that agrees is fresh.
use d_hsm.Prelude.{
  ℕ, ◌+◌, ◌*◌, ◌<◌, ◌≤◌, ◌≡◌, refl, ◌↔◌, List, [], ◌∷◌, true, none, some, arith, replicate, All,
}
use d_hsm.Prelude.Bytes.{be_bytes, bytes_lt}
use d_hsm.Prelude.Attempt.{done}
use d_hsm.Cbor.Utf8.{is_utf8}
use d_hsm.Cbor.Value.{Entries, unsigned, bytes, text, map_of, end, entry}
use d_hsm.Cbor.Encode.{put_uint, put_text, put_bytes}
use d_hsm.Cbor.Canonical.{encode}
use d_hsm.Envelope.Marks.{DecodedMarks}
use d_hsm.Envelope.MarksExact.{marks_wire}
use d_hsm.Keystore.Marks.{seeded}
use d_hsm.Anchor.Types.{AnchorState}
use d_hsm.Boot.Process.{Process, boot_reconcile_anti_rollback, boot_failed, no_challenge}
use d_hsm.Boot.Adopt.{execute_adopt_forward}
use d_hsm.Boot.AdoptExact.{Adopted, execute_adopt_forward_sound}
use d_hsm.Boot.ReadyOnce.{
  Justified, boot_reconcile_anti_rollback_once, boot_reconcile_anti_rollback_replay,
}
use d_hsm.Boot.Driver.{Platform, Run, driver_ready, run_boot_anti_rollback_handshake, decide_serve}
use d_hsm.Boot.Handshake.{Ended, run_boot_anti_rollback_handshake_sound, decide_serve_ready}
use d_hsm.Boot.Bounded.{Counts, run_boot_anti_rollback_handshake_bounded}
use d_hsm.Runs.Data.{body, word, env_name, toy, toy-IsCtEq, all_bytes_sound}

abbrev adopted_marks : DecodedMarks
adopted_marks = record {
  rows =
      record {
        authority = word 2;
        scope_class = 0;
        scope_target = b't' ∷ [];
        highest_accepted_counter = 4;
      }
      ∷ [];
  cumulative_native_spend = word 1;
  lifetime_spend = word 1;
  strict_recovery_counter = 0;
}

-- 29 bytes of the domain and 114 of the payload.
abbrev ahead : AnchorState
ahead = record {
  epoch = 6;
  structural_version = 1;
  marks_digest = word 143;
  chain_height = none;
  chain_block_hash = none;
}

abbrev marks_map : Entries
marks_map = entry (unsigned 1) (unsigned 1) (
    entry (unsigned 2) (unsigned 7) (
      entry (unsigned 3) (text env_name) (
        entry (unsigned 4) (unsigned 6) (
          entry (unsigned 5) (bytes (word 8)) (
            entry (unsigned 6) (bytes (marks_wire adopted_marks))
              (entry (unsigned 13) (bytes (replicate 64 1)) end))))))

abbrev marks_message_wire : List ℕ
marks_message_wire = encode (map_of marks_map)

adopts :
    execute_adopt_forward toy marks_message_wire body ahead (word 8)
    ≡ done (seeded body adopted_marks 6)
unfolding execute_adopt_forward encode marks_wire be_bytes bytes_lt is_utf8
adopts = refl

marks_message-IsByte : All (λ b. b < 256) marks_message_wire
unfolding encode marks_wire put_uint put_text put_bytes be_bytes
marks_message-IsByte = all_bytes_sound marks_message_wire refl

execute_adopt_forward_sound_example :
    Adopted toy marks_message_wire body ahead (word 8) (seeded body adopted_marks 6)
execute_adopt_forward_sound_example =
    execute_adopt_forward_sound toy marks_message_wire body ahead (word 8)
      (seeded body adopted_marks 6) toy-IsCtEq marks_message-IsByte adopts

abbrev freshness_map : Entries
freshness_map = entry (unsigned 1) (unsigned 1) (
    entry (unsigned 2) (unsigned 7) (
      entry (unsigned 3) (text env_name) (
        entry (unsigned 4) (unsigned 6) (
          entry (unsigned 5) (unsigned 1) (
            entry (unsigned 6) (bytes (word 143)) (
              entry (unsigned 7) (bytes (word 8))
                (entry (unsigned 13) (bytes (replicate 64 1)) end)))))))

abbrev freshness_wire : List ℕ
freshness_wire = encode (map_of freshness_map)

abbrev waiting : Process
waiting = record {
  outstanding = some (record { nonce = word 8; chain_id = 7; environment_identifier = env_name });
  binding = none;
}

boot_reconcile_anti_rollback_once_example :
    let r = boot_reconcile_anti_rollback toy freshness_wire body waiting in
    Justified toy freshness_wire body waiting r.0 r.1 × (r.1.outstanding ≡ none)
boot_reconcile_anti_rollback_once_example =
    boot_reconcile_anti_rollback_once toy freshness_wire body waiting

boot_reconcile_anti_rollback_replay_example :
    let p1 = (boot_reconcile_anti_rollback toy freshness_wire body waiting).1 in
    boot_reconcile_anti_rollback toy freshness_wire body p1 ≡ (boot_failed no_challenge, p1)
boot_reconcile_anti_rollback_replay_example =
    boot_reconcile_anti_rollback_replay toy freshness_wire freshness_wire body body waiting

-- A platform that draws one nonce for ever and counts the round trips.
abbrev counting : Platform ℕ
counting = record {
  getrandom = λ w. (some (word 8), w);
  anchor_round_trip = λ r w. (done freshness_wire, w + 1);
  marks_round_trip = λ r w. (done marks_message_wire, w + 1);
}

abbrev start : Run ℕ
start = record { body = body; process = record { outstanding = none; binding = none }; world = 0 }

-- The first attempt adopts and the second is fresh.
becomes_ready : (run_boot_anti_rollback_handshake toy counting 3 start).0 ≡ driver_ready ahead
unfolding run_boot_anti_rollback_handshake encode marks_wire be_bytes bytes_lt is_utf8
becomes_ready = refl

run_boot_anti_rollback_handshake_sound_example :
    let r = run_boot_anti_rollback_handshake toy counting 3 start in
    Ended toy counting start.body start.process.binding r.0 r.1
run_boot_anti_rollback_handshake_sound_example =
    run_boot_anti_rollback_handshake_sound toy counting 3 start

decide_serve_ready_example :
    let r = run_boot_anti_rollback_handshake toy counting 3 start in
    (decide_serve r.0 true r.1.process ≡ done ahead) ↔ (r.0 ≡ driver_ready ahead)
decide_serve_ready_example = decide_serve_ready toy counting 3 start ahead

counting-Counts : Counts counting (λ w. w)
counting-Counts = record {
  draw = λ w. omega arith;
  trip = λ r w. omega arith;
  marks = λ r w. omega arith;
}

run_boot_anti_rollback_handshake_bounded_example :
    let r = run_boot_anti_rollback_handshake toy counting 3 start in
    (r.1.world ≤ start.world + 2 * 3) × (r.1.world ≤ start.world + 128)
run_boot_anti_rollback_handshake_bounded_example =
    run_boot_anti_rollback_handshake_bounded toy counting (λ w. w) counting-Counts 3 start
