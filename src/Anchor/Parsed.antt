-- ===== src/Anchor/Parsed.antt =====
-- `parse_response` of agent_anchor.rs: where the fields of a response stand.
use d_hsm.Prelude.{◌≡◌, subst, some, true}
use d_hsm.Prelude.Attempt.{done, ok_or, >>=-eq-done, ok_or-done, done_inv, ensure-done}
use d_hsm.Cbor.Value.{Entries}
use d_hsm.Cbor.Access.{map_get, check_strict_keys, read_at, as_u64, as_bytes32, as_bytes_n}
use d_hsm.Anchor.Types.{malformed}
use d_hsm.Anchor.Response.{
  AnchorResponse, req_u64, req_digest, as_text, optional, is_some, same, response_key,
  parse_response,
}

-- Each field is the value at its key, and no other key is there.
pub record Parsed (m : Entries) (r : AnchorResponse) : Type 0 where
  pub keys : check_strict_keys m response_key ≡ true
  pub version : read_at as_u64 m 1 ≡ some r.version
  pub chain : read_at as_u64 m 2 ≡ some r.chain_id
  pub environment : read_at as_text m 3 ≡ some r.environment_identifier
  pub epoch : read_at as_u64 m 4 ≡ some r.epoch
  pub structural : read_at as_u64 m 5 ≡ some r.structural_version
  pub digest : read_at as_bytes32 m 6 ≡ some r.marks_digest
  pub nonce : read_at as_bytes32 m 7 ≡ some r.nonce
  pub height : optional as_u64 (map_get m 8) ≡ done r.chain_height
  pub hash : optional as_bytes32 (map_get m 9) ≡ done r.chain_block_hash
  pub together : same (is_some r.chain_height) (is_some r.chain_block_hash) ≡ true
  pub signature : read_at (as_bytes_n 64) m 13 ≡ some r.signature

pub parse_response-Parsed :
    (m : Entries) (r : AnchorResponse) → parse_response m ≡ done r → Parsed m r
unfolding parse_response
parse_response-Parsed m r h =
    let (keys, h0) = ensure-done (check_strict_keys m response_key) malformed _ h in
    let (version, e1, h1) = >>=-eq-done (req_u64 m 1) _ h0 in
    let (chain, e2, h2) = >>=-eq-done (req_u64 m 2) _ h1 in
    let (environment, e3, h3) = >>=-eq-done (ok_or (read_at as_text m 3) malformed) _ h2 in
    let (epoch, e4, h4) = >>=-eq-done (req_u64 m 4) _ h3 in
    let (structural, e5, h5) = >>=-eq-done (req_u64 m 5) _ h4 in
    let (digest, e6, h6) = >>=-eq-done (req_digest m 6) _ h5 in
    let (nonce, e7, h7) = >>=-eq-done (req_digest m 7) _ h6 in
    let (height, e8, h8) = >>=-eq-done (optional as_u64 (map_get m 8)) _ h7 in
    let (hash, e9, h9) = >>=-eq-done (optional as_bytes32 (map_get m 9)) _ h8 in
    let (together, h10) = ensure-done (same (is_some height) (is_some hash)) malformed _ h9 in
    let (signature, e11, h11) =
      >>=-eq-done (ok_or (read_at (as_bytes_n 64) m 13) malformed) _ h10 in
    subst (Parsed m) (done_inv h11) (record {
      keys = keys;
      version = ok_or-done (read_at as_u64 m 1) malformed e1;
      chain = ok_or-done (read_at as_u64 m 2) malformed e2;
      environment = ok_or-done (read_at as_text m 3) malformed e3;
      epoch = ok_or-done (read_at as_u64 m 4) malformed e4;
      structural = ok_or-done (read_at as_u64 m 5) malformed e5;
      digest = ok_or-done (read_at as_bytes32 m 6) malformed e6;
      nonce = ok_or-done (read_at as_bytes32 m 7) malformed e7;
      height = e8;
      hash = e9;
      together = together;
      signature = ok_or-done (read_at (as_bytes_n 64) m 13) malformed e11;
    })
