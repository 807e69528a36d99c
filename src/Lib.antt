-- ===== src/Lib.antt =====
-- The agent gateway of the 2d-hsm enclave (crate impl/rust/enclave-protocol): a keystore sealed by
-- an enclave whose host can replay old blobs, a freshness anchor that holds the current state, and
-- privileged commands that carry a signed capability.
--
-- The parts, all under impl/rust/enclave-protocol/src:
--   Prelude      bytes, lists, tests and results that the other files share.
--   Crypto       SHA-3, Ed25519 and the constant-time comparison, which other crates provide: a
--                record that the functions take as an argument. `IsCtEq` is what subtle promises.
--   U256         u256.rs: `[u8; 32]` arithmetic with carries.
--   Cbor         agent_cbor.rs: Parser is `StrictParser` (take, head, item and the typed reads),
--                Access the accessors on a decoded map, Encode the writers `put_uint`, `put_text`
--                and `put_bytes` of agent_capability.rs. Canonical describes the format by an
--                encoder of its own.
--   Envelope     agent_cbor.rs: the marks payload (Marks), the raw-marks response and the commit
--                acknowledgement (Signed), read key by key.
--   Keystore     agent_keystore.rs: Types is the sealed body, Faucet `accept_and_debit`, Counter
--                `advance_counter`, Audit `record_audit` and `advance_export_high_water`, Epoch the
--                commit bumps, Validate `validate`, Marks the encoding, digest and seeding of marks,
--                Seal the sealed blob, Grows compares a body before and after a command.
--   Anchor       agent_anchor.rs: the freshness response, the raw-marks response, the commit
--                acknowledgement and `reconcile`. Parsed, Written and Signed compare the messages
--                with the map on the wire.
--   Boot         agent_challenge.rs, agent_boot.rs, agent_boot_driver.rs and the anti-rollback
--                binding of agent_dispatch.rs. The two process-wide slots are the record `Process`;
--                the transport and the generator are functions on an arbitrary world.
--   Capability   agent_capability.rs: Parse, and Verify with the signed bytes. Parsed describes where
--                the fields stand, Tier who may sign what, Written the signed bytes as one canonical
--                map.
--   Frame        lib.rs: `encode_message` and `decode_message`.
--   Relay        agent_boot_relay.rs: the three requests, their encoders and decoders, and
--                `run_anchor_commit`.
--   Signer       Curve is secp256k1.rs, Rlp rlp.rs, Transfer agent_transfer.rs, Identity
--                agent_identity.rs and Keygen agent_keygen.rs.
--   Dispatch     agent_dispatch.rs: Envelope, Opcode and Route are `dispatch_agent`, Identity,
--                Payload, Faucet, Generate, Mint and Treasury the handlers, Respond the encoders,
--                Frame the slots, `commit_before_emit` and `handle_agent_gateway_frame`. Handled,
--                Outcome and the children of Frame hold the proofs.
--   Runs         the functions at concrete inputs.
--
-- How they meet: the driver issues a challenge, sends it, reconciles the answer with the digest of
-- the body's marks, adopts raw marks when the anchor is ahead, and tries again; a capability check
-- reads the counter row that `advance_counter` writes. A frame is decoded, routed and handled on a
-- copy of the installed body; a handler that changes it returns the candidate, and the frame handler
-- seals the candidate, has the anchor acknowledge its epoch and marks digest, and only then installs
-- it and hands the blob out.
--
-- Other crates are arguments: SHA-3, Ed25519 and subtle (`Crypto`), k256, sha2 and bs58 (`Curve`),
-- XChaCha20Poly1305 and serde's CBOR of a body (`Sealer`), CBOR values (`Ciborium`). The generator,
-- the commit channel and the provisioning root are functions on an arbitrary world (`Host`). A
-- function that acts on a world is an `Action`: its result and the world after it. The preview
-- features are the record `Features`; the model is of a build without agent-backup-export-preview.
--
-- Byte strings, arrays and texts are lists of byte values; a text is its UTF-8 bytes. A `u64` is a
-- natural number, and every checked or saturating step on it is written out. The CBOR reader's
-- state is the unread rest. `item` recurses on the levels of nesting that are left, four for a
-- whole document, which is the bound of the source; the driver recurses on the attempts that are
-- left, 64 at most. Neither has fuel of its own. A hash set is the list of what was put in, and
-- `sort_by` a stable insertion sort. The assertion of `encode_marks_payload`, which a release build
-- drops, is left out. Locks that were poisoned are recovered by the source, so they do not appear.
--
-- Not modelled: the export and restore of a backup and the ephemeral restore slot of
-- agent_dispatch.rs, which the feature agent-backup-export-preview compiles in; the deadline of a
-- commit, which belongs to the channel; the base protocol of lib.rs beyond its frame codec, sockets,
-- quotes, attestation and provisioning, which are input and output over formats of other
-- components; and the crates beside this one.
pub mod Prelude
pub mod Crypto
pub mod U256
pub mod Cbor
pub mod Envelope
pub mod Keystore
pub mod Anchor
pub mod Boot
pub mod Capability
pub mod Runs
pub mod Signer
pub mod Frame
pub mod Relay
pub mod Dispatch
