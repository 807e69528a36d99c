-- ===== src/Envelope/Signed.antt =====
-- `strict_decode_marks_response` and `strict_decode_commit_ack` of agent_cbor.rs.
use d_hsm.Prelude.{ℕ, List, Option, some, ◌==◌, ◌>>=◌, ◌>>◌, require}
use d_hsm.Cbor.Parser.{typed_head, uint, bstr, bstr_exact, text_max, is_empty, max_str_len}
use d_hsm.Envelope.Fields.{field}

pub record MarksRespFields : Type 0 where
  pub version : ℕ
  pub chain_id : ℕ
  pub environment_identifier : List ℕ
  pub epoch : ℕ
  pub nonce : List ℕ
  pub marks_payload : List ℕ
  pub signature : List ℕ

unfoldable pub strict_decode_marks_response : List ℕ → ℕ → Option MarksRespFields
unfolding typed_head uint bstr bstr_exact text_max field
strict_decode_marks_response wire max_payload = do
  (pairs, s0) ← typed_head 5 wire
  require (pairs == 7)
  (version, s1) ← field 1 uint s0
  (chain_id, s2) ← field 2 uint s1
  (environment, s3) ← field 3 (text_max max_str_len) s2
  (epoch, s4) ← field 4 uint s3
  (nonce, s5) ← field 5 (bstr_exact 32) s4
  (payload, s6) ← field 6 (bstr max_payload) s5
  (signature, s7) ← field 13 (bstr_exact 64) s6
  require (is_empty s7)
  some (record {
    version = version;
    chain_id = chain_id;
    environment_identifier = environment;
    epoch = epoch;
    nonce = nonce;
    marks_payload = payload;
    signature = signature;
  })

pub record CommitAckFields : Type 0 where
  pub version : ℕ
  pub chain_id : ℕ
  pub environment_identifier : List ℕ
  pub epoch : ℕ
  pub structural_version : ℕ
  pub marks_digest : List ℕ
  pub nonce : List ℕ
  pub request_id : List ℕ
  pub signature : List ℕ

unfoldable pub strict_decode_commit_ack : List ℕ → ℕ → Option CommitAckFields
unfolding typed_head uint bstr bstr_exact text_max field
strict_decode_commit_ack wire max_request_id = do
  (pairs, s0) ← typed_head 5 wire
  require (pairs == 9)
  (version, s1) ← field 1 uint s0
  (chain_id, s2) ← field 2 uint s1
  (environment, s3) ← field 3 (text_max max_str_len) s2
  (epoch, s4) ← field 4 uint s3
  (structural, s5) ← field 5 uint s4
  (digest, s6) ← field 6 (bstr_exact 32) s5
  (nonce, s7) ← field 7 (bstr_exact 32) s6
  (request_id, s8) ← field 8 (bstr max_request_id) s7
  (signature, s9) ← field 13 (bstr_exact 64) s8
  require (is_empty s9)
  some (record {
    version = version;
    chain_id = chain_id;
    environment_identifier = environment;
    epoch = epoch;
    structural_version = structural;
    marks_digest = digest;
    nonce = nonce;
    request_id = request_id;
    signature = signature;
  })
