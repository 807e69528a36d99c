-- ===== src/Runs/Frames.antt =====
-- A run of the gateway: one frame with a dispense, and a session.
use d_hsm.Prelude.{
  ℕ, ◌≤◌, ◌≡◌, ◌↔◌, refl, arith, subst, eq_of_some, length-replicate, List, [], ◌∷◌, ◌++◌, true,
  Option, none, some, length, drop, replicate,
}
use d_hsm.Prelude.Bytes.{be_bytes, be_value, bytes_lt}
use d_hsm.Prelude.Attempt.{done}
use d_hsm.Cbor.Value.{Entries, unsigned, bytes, text, map_of, end, entry}
use d_hsm.Cbor.Encode.{put_uint, put_text, put_bytes}
use d_hsm.Cbor.Canonical.{encode}
use d_hsm.Cbor.Utf8.{is_utf8}
use d_hsm.Keystore.Seal.{Sealer, aad, measurement_digest, unseal_body}
use d_hsm.Boot.Process.{is_anti_rollback_configured}
use d_hsm.Relay.Types.{Ciborium}
use d_hsm.Dispatch.Envelope.{command_domain, decode_envelope}
use d_hsm.Dispatch.Frame.{Build, Host, Gateway, Installed, handle_agent_gateway_frame}
use d_hsm.Dispatch.Frame.Sound.{Frame, handle_agent_gateway_frame_sound}
use d_hsm.Dispatch.Frame.Trail.{
  Session, run_frames, run_frames_refines, unbound_frames_install_nothing,
}
use d_hsm.Dispatch.Frame.Recover.{run_replies, Recovers, run_frames-Recovers}
use d_hsm.Keystore.Grows.{Grows}
use d_hsm.Keystore.Seal.RoundTrip.{IsSealer}
use d_hsm.Keystore.Seal.Kept.{Fills, unseal_body-seal_body}
use d_hsm.Keystore.Seal.Body.{seal_body}
use d_hsm.Frame.{protocol_version, FramedMessage, agent_gateway, encode_message, decode_message}
use d_hsm.Frame.RoundTrip.{decode_message_iff}
use d_hsm.Runs.Dispense.{toy_curve, funded, dispense_map, dispense_request}
use d_hsm.Runs.Data.{word, env_name, toy, toy-IsCtEq, all_bytes_sound}

abbrev toy_sealer : Sealer
toy_sealer = record {
  aead_encrypt = λ k n a m. some (replicate 16 0 ++ m);
  aead_decrypt = λ k n a m. some (drop 16 m);
  write_body = λ y. y.freshness_epoch ∷ [];
  read_body = λ m. none;
}

abbrev toy_cbor : Ciborium
toy_cbor = record { into_writer = λ v. encode v; from_reader = λ l. none }

abbrev build : Build
build = record {
  crypto = toy;
  curve = toy_curve;
  sealer = toy_sealer;
  cbor = toy_cbor;
  features = record {
    keygen_exec = true;
    configure_treasury = true;
    prove_identity = true;
    sign_transfer = true;
    sign_faucet = true;
  };
}

abbrev dispense_envelope : Entries
dispense_envelope = entry (unsigned 1) (unsigned 1) (
    entry (unsigned 2) (unsigned 5) (
      entry (unsigned 3) (text command_domain) (
        entry (unsigned 4) (bytes (9 ∷ []))
          (entry (unsigned 6) (bytes (word 20)) (entry (unsigned 7) (map_of dispense_map) end)))))

abbrev dispense_wire : List ℕ
dispense_wire = encode (map_of dispense_envelope)

abbrev acknowledgement : Entries
acknowledgement = entry (unsigned 1) (unsigned 1) (
    entry (unsigned 2) (unsigned 7) (
      entry (unsigned 3) (text env_name) (
        entry (unsigned 4) (unsigned 6) (
          entry (unsigned 5) (unsigned 1) (
            entry (unsigned 6) (bytes (word 104)) (
              entry (unsigned 7) (bytes (word 8)) (
                entry (unsigned 8) (bytes (9 ∷ []))
                  (entry (unsigned 13) (bytes (replicate 64 1)) end))))))))

-- A host whose generator repeats itself and that counts the round trips.
abbrev host : Host ℕ
host = record {
  getrandom = λ n w. (some (replicate n 8), w);
  round_trip = λ frame w. (done (encode (map_of acknowledgement)), w);
  resolve_provisioning_root = λ w. some (word 3);
}

abbrev held : Installed
held = record { body = funded; measurement = 1 ∷ [] }

abbrev gateway : Gateway ℕ
gateway = record {
  installed = some held;
  process = record { outstanding = none; binding = some (record { epoch = 5; active = true }) };
  channel_installed = true;
  world = 0;
}

envelope_decodes : decode_envelope dispense_wire ≡ done dispense_request
unfolding decode_envelope encode be_bytes be_value bytes_lt is_utf8 put_uint put_text put_bytes
envelope_decodes = refl

abbrev epoch_of : Option Installed → ℕ
epoch_of none = 0
epoch_of (some i) = i.body.freshness_epoch

-- The epoch of the installed body moves from 5 to 6.
dispense_installs :
    epoch_of (handle_agent_gateway_frame build host dispense_wire gateway).1.installed ≡ 6
unfolding handle_agent_gateway_frame encode be_bytes be_value bytes_lt is_utf8 put_uint put_text
    put_bytes
dispense_installs = refl

handle_agent_gateway_frame_sound_example :
    Frame build host dispense_wire gateway
      (handle_agent_gateway_frame build host dispense_wire gateway)
handle_agent_gateway_frame_sound_example =
    handle_agent_gateway_frame_sound build host dispense_wire gateway toy-IsCtEq

abbrev session : List (List ℕ)
session = dispense_wire ∷ (0 ∷ []) ∷ []

run_frames_refines_example :
    (s : Session build host 2 held gateway.process (run_frames build host session gateway)) × Grows
      s.commits held.body s.body
run_frames_refines_example = run_frames_refines build host session gateway held toy-IsCtEq refl

toy_sealer-IsSealer : IsSealer toy toy_sealer
toy_sealer-IsSealer = record {
  hash_length = λ m. refl;
  opens = λ key nonce associated message ct h.
      subst (λ c. (some (drop 16 c) ≡ some message) × (16 ≤ length c)) (eq_of_some h)
        (refl, omega arith);
}

host-Fills : Fills toy toy_sealer host.getrandom
host-Fills n w drawn h = subst (λ l. length l ≡ n) (eq_of_some h) (length-replicate n 8)

run_frames-Recovers_example :
    Recovers build host
      (run_replies build host session gateway)
      held
      (run_frames build host session gateway)
run_frames-Recovers_example =
    run_frames-Recovers build host session gateway held toy-IsCtEq toy_sealer-IsSealer host-Fills
      refl

abbrev unbound_gateway : Gateway ℕ
unbound_gateway = record gateway { process = record { outstanding = none; binding = none } }

unbound_frames_install_nothing_example :
    (run_frames build host session unbound_gateway).installed ≡ some held
unfolding is_anti_rollback_configured
unbound_frames_install_nothing_example =
    unbound_frames_install_nothing build host session unbound_gateway toy-IsCtEq refl

-- A serializer that reads one body back.
abbrev one_body : Sealer
one_body = record toy_sealer { read_body = λ m. some (funded, length m) }

one_body-IsSealer : IsSealer toy one_body
one_body-IsSealer = record {
  hash_length = toy_sealer-IsSealer.hash_length;
  opens = toy_sealer-IsSealer.opens;
}

abbrev sealed_funded : List ℕ
sealed_funded =
    aad (measurement_digest toy (1 ∷ [])) ++ (replicate 24 8 ++ (replicate 16 0 ++ (5 ∷ [])))

seals : seal_body toy one_body host.getrandom funded (word 3) (1 ∷ []) 0 ≡ (done sealed_funded, 0)
unfolding seal_body be_bytes
seals = refl

unseal_body-seal_body_example :
    unseal_body toy one_body sealed_funded (word 3) (1 ∷ []) ≡ done funded
unseal_body-seal_body_example =
    unseal_body-seal_body toy one_body host.getrandom funded (word 3) (1 ∷ []) sealed_funded 0 0
      one_body-IsSealer host-Fills refl seals

abbrev framed_wire : List ℕ
framed_wire = 0 ∷ 0 ∷ 0 ∷ 4 ∷ 1 ∷ 0x40 ∷ 7 ∷ 9 ∷ []

abbrev framed : FramedMessage
framed = record { version = 1; msg_type = agent_gateway; payload = 7 ∷ 9 ∷ [] }

decode_message_iff_example : (decode_message framed_wire ≡ done framed) ↔ (
    (framed.version ≡ protocol_version)
    × (encode_message agent_gateway (7 ∷ 9 ∷ []) ≡ done framed_wire))
decode_message_iff_example =
    decode_message_iff framed_wire framed (all_bytes_sound framed_wire refl)
