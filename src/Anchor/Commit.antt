-- ===== src/Anchor/Commit.antt =====
-- The commit acknowledgement: `commit_ack_signed_preimage` and `verify_commit_ack_bytes` of
-- agent_anchor.rs.
use d_hsm.Prelude.{ℕ, List, [], ◌∷◌, ◌++◌, ◌==◌}
use d_hsm.Prelude.Bytes.{bytes_eq}
use d_hsm.Prelude.Attempt.{Attempt, done, ensure, ok_or, ◌>>=◌, ◌>>◌}
use d_hsm.Crypto.{Crypto}
use d_hsm.Cbor.Encode.{put_uint, put_text, put_bytes}
use d_hsm.Envelope.Signed.{CommitAckFields, strict_decode_commit_ack}
use d_hsm.Keystore.Types.{KeystoreConfig}
use d_hsm.Anchor.Types.{checked_signature, in_scope}

pub data CommitAckError : Type 0 where
  malformed signature_invalid scope_mismatch nonce_mismatch : CommitAckError
  epoch_mismatch structural_mismatch marks_mismatch request_id_mismatch : CommitAckError

abbrev pub commit_ack_domain : List ℕ
commit_ack_domain =
    b'2' ∷ b'd' ∷ b'-' ∷ b'h' ∷ b's' ∷ b'm' ∷ b'/' ∷ b'a' ∷ b'g' ∷ b'e' ∷ b'n' ∷ b't' ∷ b'-' ∷ b'a'
    ∷ b'n' ∷ b'c' ∷ b'h' ∷ b'o' ∷ b'r' ∷ b'-' ∷ b'c' ∷ b'o' ∷ b'm' ∷ b'm' ∷ b'i' ∷ b't' ∷ b'-'
    ∷ b'a' ∷ b'c' ∷ b'k' ∷ b'/' ∷ b'v' ∷ b'1' ∷ 0 ∷ []

abbrev pub commit_ack_version : ℕ
commit_ack_version = 1

-- `MAX_REQUEST_ID_LEN` of agent_dispatch.rs.
abbrev pub max_request_id_len : ℕ
max_request_id_len = 64

unfoldable pub commit_ack_signed_preimage : CommitAckFields → List ℕ
unfolding put_uint put_text put_bytes
commit_ack_signed_preimage f =
    let rest6 = put_uint 0 7 ++ (put_bytes f.nonce ++ (put_uint 0 8 ++ put_bytes f.request_id)) in
    let rest5 = put_uint 0 6 ++ (put_bytes f.marks_digest ++ rest6) in
    let rest4 = put_uint 0 5 ++ (put_uint 0 f.structural_version ++ rest5) in
    let rest3 = put_uint 0 4 ++ (put_uint 0 f.epoch ++ rest4) in
    let rest2 = put_uint 0 3 ++ (put_text f.environment_identifier ++ rest3) in
    let rest1 = put_uint 0 2 ++ (put_uint 0 f.chain_id ++ rest2) in
    commit_ack_domain ++ (put_uint 5 8 ++ (put_uint 0 1 ++ (put_uint 0 f.version ++ rest1)))

pub record ExpectedCommitAck : Type 0 where
  pub nonce : List ℕ
  pub epoch : ℕ
  pub structural_version : ℕ
  pub marks_digest : List ℕ
  pub request_id : List ℕ

unfoldable pub verify_commit_ack_bytes :
    Crypto → List ℕ → ExpectedCommitAck → KeystoreConfig → Attempt CommitAckError (Unit {0})
unfolding strict_decode_commit_ack commit_ack_signed_preimage bytes_eq
verify_commit_ack_bytes c wire expected config = do
  f ← ok_or (strict_decode_commit_ack wire max_request_id_len) malformed
  ensure (f.version == commit_ack_version) malformed
  checked_signature c config (commit_ack_signed_preimage f) f.signature signature_invalid
  ensure (in_scope config f.chain_id f.environment_identifier) scope_mismatch
  ensure (bytes_eq f.nonce expected.nonce) nonce_mismatch
  ensure (f.epoch == expected.epoch) epoch_mismatch
  ensure (f.structural_version == expected.structural_version) structural_mismatch
  ensure (bytes_eq f.marks_digest expected.marks_digest) marks_mismatch
  ensure (bytes_eq f.request_id expected.request_id) request_id_mismatch
  done tt
