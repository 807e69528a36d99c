-- ===== src/Relay/Decode.antt =====
-- The decoders of the host relay, of agent_boot_relay.rs. The reader of values is ciborium's.
use d_hsm.Prelude.{ℕ, List, not, ◌&&◌, Option, some, leb, ltb, ◌==◌, length}
use d_hsm.Prelude.Bytes.{bytes_eq}
use d_hsm.Prelude.Attempt.{Attempt, done, failed, ensure, ok_or, map_err, ◌>>=◌, ◌>>◌}
use d_hsm.Crypto.{Crypto}
use d_hsm.Cbor.Value.{Value, Entries, map_of, text}
use d_hsm.Cbor.Access.{map_get, check_strict_keys, read_at, as_u64, as_bytes, as_bytes_n}
use d_hsm.Frame.{
  MessageType, type_byte, agent_boot_relay, agent_anchor_marks_relay, agent_anchor_commit_relay,
  decode_message,
}
use d_hsm.Anchor.Commit.{max_request_id_len}
use d_hsm.Anchor.Response.{anchor_handshake_report_data}
use d_hsm.Relay.Types.{
  Ciborium, RelayError, frame, wrong_type, bad_cbor, trailing_bytes, not_a_map, bad_keys, bad_uint,
  bad_version, bad_environment, bad_nonce, bad_report_data, bad_quote, quote_too_large, bad_chain,
  chain_too_large, report_data_inconsistent, bad_digest, bad_request_id, DecodedBootRequest,
  DecodedMarksRequest, AnchorCommitRequest, relay_request_version, marks_request_version,
  commit_request_version, max_quote_report_len, max_cert_chain_len,
}

abbrev map_in : Value → Attempt RelayError Entries
map_in (map_of m) = done m
map_in _ = failed not_a_map

-- What the three decoders start with: the frame's type, one whole value, a map with the keys
-- from 1 to `last`.
unfoldable pub request_map : Ciborium → MessageType → ℕ → List ℕ → Attempt RelayError Entries
unfolding decode_message check_strict_keys
request_map cb t last bytes = do
  framed ← map_err frame (decode_message bytes)
  ensure (type_byte framed.msg_type == type_byte t) wrong_type
  (value, position) ← ok_or (cb.from_reader framed.payload) bad_cbor
  ensure (position == length framed.payload) trailing_bytes
  m ← map_in value
  ensure (check_strict_keys m (λ n. leb 1 n && leb n last)) bad_keys
  done m

abbrev pub req_uint : Entries → ℕ → Attempt RelayError ℕ
req_uint m k = ok_or (read_at as_u64 m k) bad_uint

abbrev pub environment_in : Option Value → Attempt RelayError (List ℕ)
environment_in (some (text s)) = done s
environment_in _ = failed bad_environment

unfoldable pub decode_anchor_boot_request :
    Crypto → Ciborium → List ℕ → Attempt RelayError DecodedBootRequest
unfolding request_map map_get anchor_handshake_report_data bytes_eq
decode_anchor_boot_request c cb bytes = do
  m ← request_map cb agent_boot_relay 7 bytes
  version ← req_uint m 1
  ensure (version == relay_request_version) bad_version
  chain_id ← req_uint m 2
  environment_identifier ← environment_in (map_get m 3)
  nonce ← ok_or (read_at (as_bytes_n 32) m 4) bad_nonce
  report_data ← ok_or (read_at (as_bytes_n 64) m 5) bad_report_data
  quote_report ← ok_or (read_at as_bytes m 6) bad_quote
  ensure (not (ltb max_quote_report_len (length quote_report))) quote_too_large
  cert_chain ← ok_or (read_at as_bytes m 7) bad_chain
  ensure (not (ltb max_cert_chain_len (length cert_chain))) chain_too_large
  ensure
      (bytes_eq report_data (anchor_handshake_report_data c chain_id environment_identifier nonce))
      report_data_inconsistent
  done (record {
    chain_id = chain_id;
    environment_identifier = environment_identifier;
    nonce = nonce;
    report_data = report_data;
    quote_report = quote_report;
    cert_chain = cert_chain;
  })

unfoldable pub decode_anchor_marks_request :
    Ciborium → List ℕ → Attempt RelayError DecodedMarksRequest
unfolding request_map map_get
decode_anchor_marks_request cb bytes = do
  m ← request_map cb agent_anchor_marks_relay 5 bytes
  version ← req_uint m 1
  ensure (version == marks_request_version) bad_version
  chain_id ← req_uint m 2
  environment_identifier ← environment_in (map_get m 3)
  nonce ← ok_or (read_at (as_bytes_n 32) m 4) bad_nonce
  epoch ← req_uint m 5
  done (record {
    chain_id = chain_id;
    environment_identifier = environment_identifier;
    nonce = nonce;
    epoch = epoch;
  })

unfoldable pub decode_anchor_commit_request :
    Ciborium → List ℕ → Attempt RelayError AnchorCommitRequest
unfolding request_map map_get
decode_anchor_commit_request cb bytes = do
  m ← request_map cb agent_anchor_commit_relay 8 bytes
  version ← req_uint m 1
  ensure (version == commit_request_version) bad_version
  chain_id ← req_uint m 2
  environment_identifier ← environment_in (map_get m 3)
  new_epoch ← req_uint m 4
  new_structural_version ← req_uint m 5
  marks_digest ← ok_or (read_at (as_bytes_n 32) m 6) bad_digest
  nonce ← ok_or (read_at (as_bytes_n 32) m 7) bad_nonce
  request_id ← ok_or (read_at as_bytes m 8) bad_request_id
  ensure (leb (length request_id) max_request_id_len) bad_request_id
  done (record {
    chain_id = chain_id;
    environment_identifier = environment_identifier;
    new_epoch = new_epoch;
    new_structural_version = new_structural_version;
    marks_digest = marks_digest;
    nonce = nonce;
    request_id = request_id;
  })
