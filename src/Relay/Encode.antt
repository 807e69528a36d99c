-- ===== src/Relay/Encode.antt =====
-- The three request frames that the enclave writes, of agent_boot_relay.rs.
use d_hsm.Prelude.{ℕ, List, ◌++◌, not, ltb, length}
use d_hsm.Prelude.Attempt.{Attempt, ensure, map_err, ◌>>◌}
use d_hsm.Cbor.Encode.{put_uint, put_text, put_bytes}
use d_hsm.Frame.{
  agent_boot_relay, agent_anchor_marks_relay, agent_anchor_commit_relay, encode_message,
}
use d_hsm.Anchor.Commit.{max_request_id_len}
use d_hsm.Boot.Driver.{AnchorBootRequest, AnchorMarksRequest}
use d_hsm.Relay.Types.{
  RelayError, frame, quote_too_large, chain_too_large, bad_request_id, AnchorCommitRequest,
  relay_request_version, marks_request_version, commit_request_version, max_quote_report_len,
  max_cert_chain_len,
}

unfoldable pub boot_request_payload : List ℕ → List ℕ → AnchorBootRequest → List ℕ
unfolding put_uint put_text put_bytes
boot_request_payload quote_report cert_chain r =
    let rest5 =
      put_uint 0 6 ++ (put_bytes quote_report ++ (put_uint 0 7 ++ put_bytes cert_chain)) in
    let rest4 = put_uint 0 5 ++ (put_bytes r.report_data ++ rest5) in
    let rest3 = put_uint 0 4 ++ (put_bytes r.nonce ++ rest4) in
    let rest2 = put_uint 0 3 ++ (put_text r.environment_identifier ++ rest3) in
    let rest1 = put_uint 0 2 ++ (put_uint 0 r.chain_id ++ rest2) in
    put_uint 5 7 ++ (put_uint 0 1 ++ (put_uint 0 relay_request_version ++ rest1))

unfoldable pub encode_anchor_boot_request :
    List ℕ → List ℕ → AnchorBootRequest → Attempt RelayError (List ℕ)
unfolding boot_request_payload encode_message
encode_anchor_boot_request quote_report cert_chain r = do
  ensure (not (ltb max_quote_report_len (length quote_report))) quote_too_large
  ensure (not (ltb max_cert_chain_len (length cert_chain))) chain_too_large
  map_err frame (encode_message agent_boot_relay (boot_request_payload quote_report cert_chain r))

unfoldable pub marks_request_payload : AnchorMarksRequest → List ℕ
unfolding put_uint put_text put_bytes
marks_request_payload r =
    let rest3 = put_uint 0 4 ++ (put_bytes r.nonce ++ (put_uint 0 5 ++ put_uint 0 r.epoch)) in
    let rest2 = put_uint 0 3 ++ (put_text r.environment_identifier ++ rest3) in
    let rest1 = put_uint 0 2 ++ (put_uint 0 r.chain_id ++ rest2) in
    put_uint 5 5 ++ (put_uint 0 1 ++ (put_uint 0 marks_request_version ++ rest1))

unfoldable pub encode_anchor_marks_request : AnchorMarksRequest → Attempt RelayError (List ℕ)
unfolding marks_request_payload encode_message
encode_anchor_marks_request r =
    map_err frame (encode_message agent_anchor_marks_relay (marks_request_payload r))

unfoldable pub commit_request_payload : AnchorCommitRequest → List ℕ
unfolding put_uint put_text put_bytes
commit_request_payload r =
    let rest6 = put_uint 0 7 ++ (put_bytes r.nonce ++ (put_uint 0 8 ++ put_bytes r.request_id)) in
    let rest5 = put_uint 0 6 ++ (put_bytes r.marks_digest ++ rest6) in
    let rest4 = put_uint 0 5 ++ (put_uint 0 r.new_structural_version ++ rest5) in
    let rest3 = put_uint 0 4 ++ (put_uint 0 r.new_epoch ++ rest4) in
    let rest2 = put_uint 0 3 ++ (put_text r.environment_identifier ++ rest3) in
    let rest1 = put_uint 0 2 ++ (put_uint 0 r.chain_id ++ rest2) in
    put_uint 5 8 ++ (put_uint 0 1 ++ (put_uint 0 commit_request_version ++ rest1))

unfoldable pub encode_anchor_commit_request : AnchorCommitRequest → Attempt RelayError (List ℕ)
unfolding commit_request_payload encode_message
encode_anchor_commit_request r = do
  ensure (not (ltb max_request_id_len (length r.request_id))) bad_request_id
  map_err frame (encode_message agent_anchor_commit_relay (commit_request_payload r))
