-- ===== src/Anchor/Response.antt =====
-- The freshness response: `parse_response`, `signed_preimage`, `verify_anchor_response`,
-- `verify_anchor_response_bytes` and `anchor_handshake_report_data` of agent_anchor.rs.
use d_hsm.Prelude.{
  ℕ, ◌%◌, ◌^◌, List, [], ◌∷◌, ◌++◌, Bool, true, false, not, ◌&&◌, ◌||◌, Option, none, some, leb,
  ◌==◌, length,
}
use d_hsm.Prelude.Bytes.{bytes_eq, be_bytes}
use d_hsm.Prelude.Attempt.{Attempt, done, ensure, ok_or, ◌>>=◌, ◌>>◌}
use d_hsm.Crypto.{Crypto}
use d_hsm.Cbor.Value.{Value, Entries, text}
use d_hsm.Cbor.Encode.{put_uint, put_text, put_bytes}
use d_hsm.Cbor.Parser.{strict_decode_map}
use d_hsm.Cbor.Access.{map_get, check_strict_keys, read_at, as_u64, as_bytes32, as_bytes_n}
use d_hsm.Keystore.Types.{KeystoreConfig}
use d_hsm.Anchor.Types.{
  AnchorError, malformed, signature_invalid, scope_mismatch, nonce_mismatch, AnchorState,
  checked_signature, in_scope,
}

pub record AnchorResponse : Type 0 where
  pub version : ℕ
  pub chain_id : ℕ
  pub environment_identifier : List ℕ
  pub epoch : ℕ
  pub structural_version : ℕ
  pub marks_digest : List ℕ
  pub nonce : List ℕ
  pub chain_height : Option ℕ
  pub chain_block_hash : Option (List ℕ)
  pub signature : List ℕ

abbrev pub req_u64 : Entries → ℕ → Attempt AnchorError ℕ
req_u64 m k = ok_or (read_at as_u64 m k) malformed

abbrev pub req_digest : Entries → ℕ → Attempt AnchorError (List ℕ)
req_digest m k = ok_or (read_at as_bytes32 m k) malformed

abbrev pub as_text : Value → Option (List ℕ)
as_text (text s) = some s
as_text _ = none

-- A field that may be absent, but not of another type.
abbrev pub optional {ℓ} :
    {A : Type ℓ} → (Value → Option A) → Option Value → Attempt AnchorError (Option A)
optional read none = done none
optional read (some v) = do a ← ok_or (read v) malformed; done (some a)

abbrev pub is_some {ℓ} : {A : Type ℓ} → Option A → Bool
is_some none = false
is_some (some a) = true

abbrev pub same : Bool → Bool → Bool
same true b = b
same false b = not b

-- The keys 1..=9 and 13.
abbrev pub response_key : ℕ → Bool
response_key n = (leb 1 n && leb n 9) || n == 13

unfoldable pub parse_response : Entries → Attempt AnchorError AnchorResponse
unfolding check_strict_keys map_get
parse_response m = do
  ensure (check_strict_keys m response_key) malformed
  version ← req_u64 m 1
  chain_id ← req_u64 m 2
  environment_identifier ← ok_or (read_at as_text m 3) malformed
  epoch ← req_u64 m 4
  structural_version ← req_u64 m 5
  marks_digest ← req_digest m 6
  nonce ← req_digest m 7
  chain_height ← optional as_u64 (map_get m 8)
  chain_block_hash ← optional as_bytes32 (map_get m 9)
  ensure (same (is_some chain_height) (is_some chain_block_hash)) malformed
  signature ← ok_or (read_at (as_bytes_n 64) m 13) malformed
  done (record {
    version = version;
    chain_id = chain_id;
    environment_identifier = environment_identifier;
    epoch = epoch;
    structural_version = structural_version;
    marks_digest = marks_digest;
    nonce = nonce;
    chain_height = chain_height;
    chain_block_hash = chain_block_hash;
    signature = signature;
  })

abbrev pub anchor_domain : List ℕ
anchor_domain =
    b'2' ∷ b'd' ∷ b'-' ∷ b'h' ∷ b's' ∷ b'm' ∷ b'/' ∷ b'a' ∷ b'g' ∷ b'e' ∷ b'n' ∷ b't' ∷ b'-' ∷ b'a'
    ∷ b'n' ∷ b'c' ∷ b'h' ∷ b'o' ∷ b'r' ∷ b'/' ∷ b'v' ∷ b'1' ∷ 0 ∷ []

-- The pair count of the map header.
abbrev pub pair_count : Option ℕ → Option (List ℕ) → ℕ
pair_count (some h) (some bh) = 9
pair_count _ _ = 7

-- The keys 8 and 9, written when both are there.
abbrev pub put_chain : Option ℕ → Option (List ℕ) → List ℕ
put_chain (some h) (some bh) = put_uint 0 8 ++ (put_uint 0 h ++ (put_uint 0 9 ++ put_bytes bh))
put_chain _ _ = []

unfoldable pub signed_preimage : AnchorResponse → List ℕ
unfolding put_uint put_text put_bytes
signed_preimage r =
    let rest5 =
      put_uint 0 7 ++ (put_bytes r.nonce ++ put_chain r.chain_height r.chain_block_hash) in
    let rest4 = put_uint 0 6 ++ (put_bytes r.marks_digest ++ rest5) in
    let rest3 = put_uint 0 5 ++ (put_uint 0 r.structural_version ++ rest4) in
    let rest2 = put_uint 0 4 ++ (put_uint 0 r.epoch ++ rest3) in
    let rest1 = put_uint 0 3 ++ (put_text r.environment_identifier ++ rest2) in
    let rest0 = put_uint 0 2 ++ (put_uint 0 r.chain_id ++ rest1) in
    anchor_domain
    ++ (put_uint 5 (pair_count r.chain_height r.chain_block_hash)
        ++ (put_uint 0 1 ++ (put_uint 0 r.version ++ rest0)))

abbrev pub anchor_response_version : ℕ
anchor_response_version = 1

abbrev pub state_of : AnchorResponse → AnchorState
state_of r = record {
  epoch = r.epoch;
  structural_version = r.structural_version;
  marks_digest = r.marks_digest;
  chain_height = r.chain_height;
  chain_block_hash = r.chain_block_hash;
}

unfoldable pub verify_anchor_response :
    Crypto → Entries → List ℕ → KeystoreConfig → Attempt AnchorError AnchorState
unfolding parse_response signed_preimage bytes_eq
verify_anchor_response c m expected_nonce config = do
  r ← parse_response m
  ensure (r.version == anchor_response_version) malformed
  checked_signature c config (signed_preimage r) r.signature signature_invalid
  ensure (in_scope config r.chain_id r.environment_identifier) scope_mismatch
  ensure (bytes_eq r.nonce expected_nonce) nonce_mismatch
  done (state_of r)

unfoldable pub verify_anchor_response_bytes :
    Crypto → List ℕ → List ℕ → KeystoreConfig → Attempt AnchorError AnchorState
unfolding strict_decode_map verify_anchor_response
verify_anchor_response_bytes c wire expected_nonce config = do
  m ← ok_or (strict_decode_map wire) malformed
  verify_anchor_response c m expected_nonce config

abbrev pub handshake_report_data_domain : List ℕ
handshake_report_data_domain =
    b'2' ∷ b'd' ∷ b'-' ∷ b'h' ∷ b's' ∷ b'm' ∷ b'-' ∷ b'a' ∷ b'g' ∷ b'e' ∷ b'n' ∷ b't' ∷ b'-' ∷ b'a'
    ∷ b'n' ∷ b'c' ∷ b'h' ∷ b'o' ∷ b'r' ∷ b'-' ∷ b'h' ∷ b'a' ∷ b'n' ∷ b'd' ∷ b's' ∷ b'h' ∷ b'a'
    ∷ b'k' ∷ b'e' ∷ b'-' ∷ b'v' ∷ b'1' ∷ []

-- The length is cast to a `u32`.
unfoldable pub anchor_handshake_report_data : Crypto → ℕ → List ℕ → List ℕ → List ℕ
unfolding be_bytes
anchor_handshake_report_data c chain_id environment_identifier nonce = c.sha3_512 (
    handshake_report_data_domain
    ++ (be_bytes 8 chain_id
        ++ (be_bytes 4 (length environment_identifier % 2 ^ 32)
            ++ (environment_identifier ++ nonce))))
