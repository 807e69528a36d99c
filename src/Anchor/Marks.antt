-- ===== src/Anchor/Marks.antt =====
-- The raw-marks response: `marks_resp_signed_preimage` and `verify_marks_response_bytes` of
-- agent_anchor.rs.
use d_hsm.Prelude.{ℕ, List, [], ◌∷◌, ◌++◌, ◌==◌}
use d_hsm.Prelude.Bytes.{bytes_eq}
use d_hsm.Prelude.Attempt.{Attempt, done, ensure, ok_or, ◌>>=◌, ◌>>◌}
use d_hsm.Crypto.{Crypto}
use d_hsm.Cbor.Encode.{put_uint, put_text, put_bytes}
use d_hsm.Envelope.Signed.{MarksRespFields, strict_decode_marks_response}
use d_hsm.Keystore.Types.{KeystoreConfig}
use d_hsm.Anchor.Types.{checked_signature, in_scope}

pub data MarksError : Type 0 where
  malformed signature_invalid scope_mismatch nonce_mismatch epoch_mismatch : MarksError

abbrev pub marks_resp_domain : List ℕ
marks_resp_domain =
    b'2' ∷ b'd' ∷ b'-' ∷ b'h' ∷ b's' ∷ b'm' ∷ b'/' ∷ b'a' ∷ b'g' ∷ b'e' ∷ b'n' ∷ b't' ∷ b'-' ∷ b'a'
    ∷ b'n' ∷ b'c' ∷ b'h' ∷ b'o' ∷ b'r' ∷ b'-' ∷ b'm' ∷ b'a' ∷ b'r' ∷ b'k' ∷ b's' ∷ b'-' ∷ b'r'
    ∷ b'e' ∷ b's' ∷ b'p' ∷ b'/' ∷ b'v' ∷ b'1' ∷ 0 ∷ []

abbrev pub marks_resp_version : ℕ
marks_resp_version = 1

-- `MAX_KEYSTORE_BLOB_SIZE`: 1 MiB less 1 KiB.
abbrev pub max_marks_payload_len : ℕ
max_marks_payload_len = 1047552

unfoldable pub marks_resp_signed_preimage : MarksRespFields → List ℕ
unfolding put_uint put_text put_bytes
marks_resp_signed_preimage f =
    let rest4 =
      put_uint 0 5 ++ (put_bytes f.nonce ++ (put_uint 0 6 ++ put_bytes f.marks_payload)) in
    let rest3 = put_uint 0 4 ++ (put_uint 0 f.epoch ++ rest4) in
    let rest2 = put_uint 0 3 ++ (put_text f.environment_identifier ++ rest3) in
    let rest1 = put_uint 0 2 ++ (put_uint 0 f.chain_id ++ rest2) in
    marks_resp_domain ++ (put_uint 5 6 ++ (put_uint 0 1 ++ (put_uint 0 f.version ++ rest1)))

unfoldable pub verify_marks_response_bytes :
    Crypto → List ℕ → List ℕ → ℕ → KeystoreConfig → Attempt MarksError (List ℕ)
unfolding strict_decode_marks_response marks_resp_signed_preimage bytes_eq
verify_marks_response_bytes c wire expected_nonce expected_epoch config = do
  f ← ok_or (strict_decode_marks_response wire max_marks_payload_len) malformed
  ensure (f.version == marks_resp_version) malformed
  checked_signature c config (marks_resp_signed_preimage f) f.signature signature_invalid
  ensure (in_scope config f.chain_id f.environment_identifier) scope_mismatch
  ensure (bytes_eq f.nonce expected_nonce) nonce_mismatch
  ensure (f.epoch == expected_epoch) epoch_mismatch
  done f.marks_payload
