-- ===== src/Runs/Messages.antt =====
-- Runs of the CBOR reader, of the marks format and of the anchor's messages.
use d_hsm.Prelude.{ℕ, ◌<◌, ◌≡◌, ◌≢◌, refl, ◌↔◌, List, [], ◌∷◌, none, some, arith, replicate, All}
use d_hsm.Prelude.Bytes.{be_bytes, be_value, bytes_lt}
use d_hsm.Prelude.Attempt.{done}
use d_hsm.Cbor.Value.{Entries, unsigned, bytes, text, map_of, end, entry}
use d_hsm.Cbor.Encode.{put_uint, put_bytes}
use d_hsm.Cbor.Parser.{strict_decode_map_capped}
use d_hsm.Cbor.Utf8.{is_utf8}
use d_hsm.Cbor.Canonical.{encode, Fits}
use d_hsm.Cbor.Canonical.Sound.{strict_decode_map_capped_sound}
use d_hsm.Cbor.Canonical.Complete.{strict_decode_map_capped-encode}
use d_hsm.Envelope.Marks.{DecodedMarks, DecodedRow, strict_decode_marks_payload}
use d_hsm.Envelope.MarksExact.{IsMarks, marks_wire, decode-marks_wire}
use d_hsm.Envelope.MarksSound.{decode-IsMarks_sound}
use d_hsm.Envelope.Signed.{MarksRespFields, CommitAckFields}
use d_hsm.Keystore.Marks.{encode_marks_payload, seeded}
use d_hsm.Keystore.Marks.Sorted.{encode_marks_payload-seeded}
use d_hsm.Anchor.Types.{AnchorState}
use d_hsm.Anchor.Reconcile.{reconcile, fresh, adopt_forward, reconcile_fresh, reconcile_adopt}
use d_hsm.Anchor.Response.{AnchorResponse, signed_preimage, verify_anchor_response_bytes}
use d_hsm.Anchor.Marks.{marks_resp_signed_preimage, verify_marks_response_bytes}
use d_hsm.Anchor.Commit.{ExpectedCommitAck, commit_ack_signed_preimage, verify_commit_ack_bytes}
use d_hsm.Anchor.Accepted.{
  Accepted, AcceptedMarks, AcceptedAck, verify_anchor_response_bytes_sound,
  verify_marks_response_bytes_sound, verify_commit_ack_bytes_sound,
}
use d_hsm.Anchor.Signed.{
  CommitAckWide, commit_ack_signed_preimage_injective, MarksRespWide,
  marks_resp_signed_preimage_injective, preimages_apart,
}
use d_hsm.Anchor.Signed.Freshness.{ResponseWide, response_preimage_injective}
use d_hsm.Runs.Data.{body, word, env_name, all_bytes_sound, toy, sealed_config}

abbrev small_map : Entries
small_map = entry (unsigned 1) (bytes (7 ∷ [])) (entry (unsigned 2) (unsigned 300) end)

abbrev small_wire : List ℕ
small_wire = 0xa2 ∷ 0x01 ∷ 0x41 ∷ 0x07 ∷ 0x02 ∷ 0x19 ∷ 0x01 ∷ 0x2c ∷ []

small_decodes : strict_decode_map_capped small_wire 64 ≡ some small_map
unfolding strict_decode_map_capped bytes_lt be_value
small_decodes = refl

strict_decode_map_capped_sound_example :
    (small_wire ≡ encode (map_of small_map)) × Fits 64 4 (map_of small_map)
strict_decode_map_capped_sound_example =
    strict_decode_map_capped_sound small_wire 64 small_map (all_bytes_sound small_wire refl)
      small_decodes

small-Fits : Fits 64 4 (map_of small_map)
unfolding encode
small-Fits = strict_decode_map_capped_sound_example.1

strict_decode_map_capped-encode_example :
    strict_decode_map_capped (encode (map_of small_map)) 64 ≡ some small_map
strict_decode_map_capped-encode_example = strict_decode_map_capped-encode 64 small_map small-Fits

abbrev row : DecodedRow
row = record {
  authority = word 2;
  scope_class = 0;
  scope_target = b't' ∷ [];
  highest_accepted_counter = 4;
}

abbrev marks : DecodedMarks
marks = record {
  rows = row ∷ [];
  cumulative_native_spend = word 1;
  lifetime_spend = word 1;
  strict_recovery_counter = 0;
}

marks-IsMarks : IsMarks 65536 marks
marks-IsMarks = record {
  each = (
    record {
      authority_len = refl;
      class_byte = omega arith;
      target_len = omega arith;
      counter_u64 = omega arith;
    },
    tt,
  );
  ordered = (refl, tt);
  bounded = omega arith;
  cumulative_len = refl;
  lifetime_len = refl;
  recovery_u64 = omega arith;
}

decode-marks_wire_example : strict_decode_marks_payload (marks_wire marks) 65536 ≡ some marks
decode-marks_wire_example = decode-marks_wire 65536 marks marks-IsMarks (omega arith)

marks_bytes : All (λ b. b < 256) (marks_wire marks)
unfolding marks_wire put_bytes be_bytes put_uint
marks_bytes = all_bytes_sound (marks_wire marks) refl

decode-IsMarks_sound_example : (marks_wire marks ≡ marks_wire marks) × IsMarks 65536 marks
decode-IsMarks_sound_example =
    decode-IsMarks_sound (marks_wire marks) 65536 marks marks_bytes decode-marks_wire_example

encode_marks_payload-seeded_example : encode_marks_payload (seeded body marks 9) ≡ marks_wire marks
encode_marks_payload-seeded_example = encode_marks_payload-seeded body 65536 marks 9 marks-IsMarks

abbrev state : AnchorState
state = record {
  epoch = 6;
  structural_version = 1;
  marks_digest = word 9;
  chain_height = none;
  chain_block_hash = none;
}

reconcile_fresh_example :
    (reconcile 6 1 (word 9) state ≡ fresh)
    ↔ ((state.epoch ≡ 6) × (state.structural_version ≡ 1) × (state.marks_digest ≡ word 9))
reconcile_fresh_example = reconcile_fresh 6 1 (word 9) state

reconcile_adopt_example :
    (reconcile 5 1 (word 8) state ≡ adopt_forward 6)
    ↔ ((5 < state.epoch) × (state.structural_version ≡ 1) × (6 ≡ state.epoch))
reconcile_adopt_example = reconcile_adopt 5 1 6 (word 8) state

abbrev response : AnchorResponse
response = record {
  version = 1;
  chain_id = 7;
  environment_identifier = env_name;
  epoch = 6;
  structural_version = 1;
  marks_digest = word 9;
  nonce = word 8;
  chain_height = none;
  chain_block_hash = none;
  signature = replicate 64 1;
}

abbrev response_resigned : AnchorResponse
response_resigned = record response { signature = replicate 64 2 }

response-Wide : ResponseWide response
response-Wide = record {
  version_u64 = omega arith;
  chain_u64 = omega arith;
  environment_u64 = omega arith;
  epoch_u64 = omega arith;
  structural_u64 = omega arith;
  marks_u64 = omega arith;
  nonce_u64 = omega arith;
  chain_wide = tt;
}

response_resigned-Wide : ResponseWide response_resigned
response_resigned-Wide = record {
  version_u64 = omega arith;
  chain_u64 = omega arith;
  environment_u64 = omega arith;
  epoch_u64 = omega arith;
  structural_u64 = omega arith;
  marks_u64 = omega arith;
  nonce_u64 = omega arith;
  chain_wide = tt;
}

-- The signature is not signed.
same_response_bytes : signed_preimage response ≡ signed_preimage response_resigned
unfolding signed_preimage
same_response_bytes = refl

response_preimage_injective_example :
    (response.version ≡ response_resigned.version)
    × (response.chain_id ≡ response_resigned.chain_id)
    × (response.environment_identifier ≡ response_resigned.environment_identifier)
    × (response.epoch ≡ response_resigned.epoch)
    × (response.structural_version ≡ response_resigned.structural_version)
    × (response.marks_digest ≡ response_resigned.marks_digest)
    × (response.nonce ≡ response_resigned.nonce)
    × (response.chain_height ≡ response_resigned.chain_height)
    × (response.chain_block_hash ≡ response_resigned.chain_block_hash)
response_preimage_injective_example =
    response_preimage_injective response response_resigned response-Wide response_resigned-Wide
      same_response_bytes

abbrev response_map : Entries
response_map = entry (unsigned 1) (unsigned 1) (
    entry (unsigned 2) (unsigned 7) (
      entry (unsigned 3) (text env_name) (
        entry (unsigned 4) (unsigned 6) (
          entry (unsigned 5) (unsigned 1) (
            entry (unsigned 6) (bytes (word 9)) (
              entry (unsigned 7) (bytes (word 8))
                (entry (unsigned 13) (bytes (replicate 64 1)) end)))))))

response_verifies :
    verify_anchor_response_bytes toy (encode (map_of response_map)) (word 8) sealed_config
    ≡ done state
unfolding verify_anchor_response_bytes encode be_bytes bytes_lt is_utf8
response_verifies = refl

verify_anchor_response_bytes_sound_example :
    (r : AnchorResponse) × Accepted toy
      (encode (map_of response_map))
      (word 8)
      sealed_config
      state
      r
verify_anchor_response_bytes_sound_example =
    verify_anchor_response_bytes_sound toy (encode (map_of response_map)) (word 8) sealed_config
      state response_verifies

abbrev marks_message : MarksRespFields
marks_message = record {
  version = 1;
  chain_id = 7;
  environment_identifier = env_name;
  epoch = 6;
  nonce = word 8;
  marks_payload = 1 ∷ [];
  signature = replicate 64 1;
}

marks_message-Wide : MarksRespWide marks_message
marks_message-Wide = record {
  version_u64 = omega arith;
  chain_u64 = omega arith;
  environment_u64 = omega arith;
  epoch_u64 = omega arith;
  nonce_u64 = omega arith;
  payload_u64 = omega arith;
}

marks_resp_signed_preimage_injective_example :
    (marks_message.version ≡ marks_message.version)
    × (marks_message.chain_id ≡ marks_message.chain_id)
    × (marks_message.environment_identifier ≡ marks_message.environment_identifier)
    × (marks_message.epoch ≡ marks_message.epoch)
    × (marks_message.nonce ≡ marks_message.nonce)
    × (marks_message.marks_payload ≡ marks_message.marks_payload)
marks_resp_signed_preimage_injective_example =
    marks_resp_signed_preimage_injective marks_message marks_message marks_message-Wide
      marks_message-Wide refl

abbrev message_map : Entries
message_map = entry (unsigned 1) (unsigned 1) (
    entry (unsigned 2) (unsigned 7) (
      entry (unsigned 3) (text env_name) (
        entry (unsigned 4) (unsigned 6) (
          entry (unsigned 5) (bytes (word 8)) (
            entry (unsigned 6) (bytes (1 ∷ []))
              (entry (unsigned 13) (bytes (replicate 64 1)) end))))))

message_verifies :
    verify_marks_response_bytes toy (encode (map_of message_map)) (word 8) 6 sealed_config
    ≡ done (1 ∷ [])
unfolding verify_marks_response_bytes encode be_bytes is_utf8
message_verifies = refl

verify_marks_response_bytes_sound_example :
    (f : MarksRespFields) × AcceptedMarks toy
      (encode (map_of message_map))
      (word 8)
      6
      sealed_config
      (1 ∷ [])
      f
verify_marks_response_bytes_sound_example =
    verify_marks_response_bytes_sound toy (encode (map_of message_map)) (word 8) 6 sealed_config
      (1 ∷ []) message_verifies

abbrev ack_map : Entries
ack_map = entry (unsigned 1) (unsigned 1) (
    entry (unsigned 2) (unsigned 7) (
      entry (unsigned 3) (text env_name) (
        entry (unsigned 4) (unsigned 6) (
          entry (unsigned 5) (unsigned 2) (
            entry (unsigned 6) (bytes (word 9)) (
              entry (unsigned 7) (bytes (word 8)) (
                entry (unsigned 8) (bytes (3 ∷ []))
                  (entry (unsigned 13) (bytes (replicate 64 1)) end))))))))

abbrev expected : ExpectedCommitAck
expected = record {
  nonce = word 8;
  epoch = 6;
  structural_version = 2;
  marks_digest = word 9;
  request_id = 3 ∷ [];
}

ack_verifies :
    verify_commit_ack_bytes toy (encode (map_of ack_map)) expected sealed_config ≡ done tt
unfolding verify_commit_ack_bytes encode be_bytes is_utf8
ack_verifies = refl

verify_commit_ack_bytes_sound_example :
    (f : CommitAckFields) × AcceptedAck toy (encode (map_of ack_map)) expected sealed_config f
verify_commit_ack_bytes_sound_example =
    verify_commit_ack_bytes_sound toy (encode (map_of ack_map)) expected sealed_config ack_verifies

abbrev ack : CommitAckFields
ack = record {
  version = 1;
  chain_id = 7;
  environment_identifier = env_name;
  epoch = 6;
  structural_version = 2;
  marks_digest = word 9;
  nonce = word 8;
  request_id = 3 ∷ [];
  signature = replicate 64 1;
}

preimages_apart_example :
    (signed_preimage response ≢ marks_resp_signed_preimage marks_message)
    × (signed_preimage response ≢ commit_ack_signed_preimage ack)
    × (marks_resp_signed_preimage marks_message ≢ commit_ack_signed_preimage ack)
preimages_apart_example = preimages_apart response marks_message ack

ack-Wide : CommitAckWide ack
ack-Wide = record {
  version_u64 = omega arith;
  chain_u64 = omega arith;
  environment_u64 = omega arith;
  epoch_u64 = omega arith;
  structural_u64 = omega arith;
  marks_u64 = omega arith;
  nonce_u64 = omega arith;
  request_u64 = omega arith;
}

commit_ack_signed_preimage_injective_example :
    (ack.version ≡ ack.version)
    × (ack.chain_id ≡ ack.chain_id)
    × (ack.environment_identifier ≡ ack.environment_identifier)
    × (ack.epoch ≡ ack.epoch)
    × (ack.structural_version ≡ ack.structural_version)
    × (ack.marks_digest ≡ ack.marks_digest)
    × (ack.nonce ≡ ack.nonce)
    × (ack.request_id ≡ ack.request_id)
commit_ack_signed_preimage_injective_example =
    commit_ack_signed_preimage_injective ack ack ack-Wide ack-Wide refl
