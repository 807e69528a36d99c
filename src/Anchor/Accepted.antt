-- ===== src/Anchor/Accepted.antt =====
-- The verified messages of agent_anchor.rs: what acceptance of one is.
use d_hsm.Prelude.{ℕ, ◌≡◌, sym, ap, subst, ◌++◌, List, true, some, ◌==◌, ==_iff, arith}
use d_hsm.Prelude.Bytes.{bytes_eq, bytes_eq_sound}
use d_hsm.Prelude.Attempt.{done, ok_or, >>=-eq-done, ensure-done, ok_or-done, done_inv, ensure-true}
use d_hsm.Crypto.{Crypto}
use d_hsm.Cbor.Value.{Entries, map_of}
use d_hsm.Cbor.Canonical.{encode}
use d_hsm.Cbor.Parser.{strict_decode_map}
use d_hsm.Envelope.Signed.{
  MarksRespFields, strict_decode_marks_response, CommitAckFields, strict_decode_commit_ack,
}
use d_hsm.Keystore.Types.{KeystoreConfig}
use d_hsm.Anchor.Types.{AnchorState, AnchorError, checked_signature, in_scope}
use d_hsm.Anchor.Types
use d_hsm.Anchor.Response.{
  AnchorResponse, anchor_domain, parse_response, signed_preimage, verify_anchor_response,
  verify_anchor_response_bytes, anchor_response_version,
}
use d_hsm.Anchor.Parsed.{Parsed, parse_response-Parsed}
use d_hsm.Anchor.Written.{response_map, signed_preimage-encode}
use d_hsm.Anchor.Marks
use d_hsm.Anchor.Marks.{
  MarksError, marks_resp_signed_preimage, verify_marks_response_bytes, max_marks_payload_len,
  marks_resp_version,
}
use d_hsm.Anchor.Commit
use d_hsm.Anchor.Commit.{
  CommitAckError, ExpectedCommitAck, commit_ack_signed_preimage, verify_commit_ack_bytes,
  max_request_id_len, commit_ack_version,
}

-- The sealed root decodes as a key and verifies the signature of the bytes.
pub record SignedBy (c : Crypto) (config : KeystoreConfig) (preimage signature : List ℕ)
    : Type 0 where
  pub key : c.key_ok config.anchor_root ≡ true
  pub signed : c.verify_strict config.anchor_root preimage signature ≡ true

in_scope_sound :
    (config : KeystoreConfig) (chain : ℕ) (env : List ℕ)
    → in_scope config chain env ≡ true
    → (chain ≡ config.twod_chain_id) × (env ≡ config.environment_identifier)
in_scope_sound config chain env h = ground (arith, bytes_eq_sound env config.environment_identifier)

signature_sound {ℓ} :
    {E : Type ℓ} (c : Crypto) (config : KeystoreConfig) (preimage signature : List ℕ) (e : E)
    {u : Unit {0}}
    → checked_signature c config preimage signature e ≡ done u
    → SignedBy c config preimage signature
signature_sound c config preimage signature e h =
    let (k, h1) = ensure-done (c.key_ok config.anchor_root) e _ h in
    record {
      key = k;
      signed = ensure-true (c.verify_strict config.anchor_root preimage signature) e h1;
    }

-- A response that yields a state: what the wire holds at each key, what the sealed root signed, and
-- where each part of the state comes from.
pub record Accepted (c : Crypto) (wire nonce : List ℕ) (config : KeystoreConfig) (st : AnchorState)
    (r : AnchorResponse) : Type 0 where
  pub entries : Entries
  pub decoded : strict_decode_map wire ≡ some entries
  pub parsed : Parsed entries r
  pub version_one : r.version ≡ 1
  pub by_root : SignedBy c config (anchor_domain ++ encode (map_of (response_map r))) r.signature
  pub chain : r.chain_id ≡ config.twod_chain_id
  pub environment : r.environment_identifier ≡ config.environment_identifier
  pub echoes : r.nonce ≡ nonce
  pub epoch : st.epoch ≡ r.epoch
  pub structural : st.structural_version ≡ r.structural_version
  pub digest : st.marks_digest ≡ r.marks_digest
  pub height : st.chain_height ≡ r.chain_height
  pub hash : st.chain_block_hash ≡ r.chain_block_hash

-- A state is taken from a response only when the wire is strict CBOR, exactly the keys of a response
-- stand in it, each field of the response is the value at its key, the version is 1, the chain and the
-- environment are the sealed ones, the nonce is the expected one, the sealed root signed the domain
-- followed by the canonical encoding of every field, and every part of the state is the signed field.
pub verify_anchor_response_bytes_sound :
    (c : Crypto) (wire nonce : List ℕ) (config : KeystoreConfig) (st : AnchorState)
    → verify_anchor_response_bytes c wire nonce config ≡ done st
    → (r : AnchorResponse) × Accepted c wire nonce config st r
unfolding verify_anchor_response_bytes verify_anchor_response
verify_anchor_response_bytes_sound c wire nonce config st h =
    let (m, e0, h0) = >>=-eq-done (ok_or (strict_decode_map wire) Types.malformed) _ h in
    let (r, e1, h1) = >>=-eq-done (parse_response m) _ h0 in
    let (v, h2) = ensure-done (r.version == anchor_response_version) Types.malformed _ h1 in
    let (u, e3, h3) =
      >>=-eq-done
        (checked_signature c config (signed_preimage r) r.signature Types.signature_invalid) _ h2 in
    let (sc, h4) =
      ensure-done (in_scope config r.chain_id r.environment_identifier) Types.scope_mismatch _ h3 in
    let (n, h5) = ensure-done (bytes_eq r.nonce nonce) Types.nonce_mismatch _ h4 in
    let scope = in_scope_sound config r.chain_id r.environment_identifier sc in
    let from = sym (done_inv h5) in
    (
      r,
      record {
        entries = m;
        decoded = ok_or-done (strict_decode_map wire) _ e0;
        parsed = parse_response-Parsed m r e1;
        version_one = (==_iff r.version 1).0 v;
        by_root =
            subst (λ l. SignedBy c config l r.signature) (signed_preimage-encode r)
              (signature_sound c config (signed_preimage r) r.signature _ e3);
        chain = scope.0;
        environment = scope.1;
        echoes = bytes_eq_sound r.nonce nonce n;
        epoch = ap (λ s. s.epoch) from;
        structural = ap (λ s. s.structural_version) from;
        digest = ap (λ s. s.marks_digest) from;
        height = ap (λ s. s.chain_height) from;
        hash = ap (λ s. s.chain_block_hash) from;
      },
    )

-- The raw-marks message behind an accepted payload.
pub record AcceptedMarks (c : Crypto) (wire nonce : List ℕ) (epoch : ℕ) (config : KeystoreConfig)
    (payload : List ℕ) (f : MarksRespFields) : Type 0 where
  pub decoded : strict_decode_marks_response wire max_marks_payload_len ≡ some f
  pub version_one : f.version ≡ 1
  pub by_root : SignedBy c config (marks_resp_signed_preimage f) f.signature
  pub chain : f.chain_id ≡ config.twod_chain_id
  pub environment : f.environment_identifier ≡ config.environment_identifier
  pub echoes : f.nonce ≡ nonce
  pub at_epoch : f.epoch ≡ epoch
  pub carries : payload ≡ f.marks_payload

-- A marks payload is taken from a message only when the message decodes strictly, is of this
-- chain, environment, nonce and epoch, and the sealed root signed its fields.
pub verify_marks_response_bytes_sound :
    (c : Crypto) (wire nonce : List ℕ) (epoch : ℕ) (config : KeystoreConfig) (payload : List ℕ)
    → verify_marks_response_bytes c wire nonce epoch config ≡ done payload
    → (f : MarksRespFields) × AcceptedMarks c wire nonce epoch config payload f
unfolding verify_marks_response_bytes
verify_marks_response_bytes_sound c wire nonce epoch config payload h =
    let (f, e0, h0) =
      >>=-eq-done (ok_or (strict_decode_marks_response wire max_marks_payload_len) Marks.malformed)
        _ h in
    let (v, h1) = ensure-done (f.version == marks_resp_version) Marks.malformed _ h0 in
    let (u, e2, h2) =
      >>=-eq-done
        (checked_signature c config (marks_resp_signed_preimage f) f.signature
          Marks.signature_invalid)
        _ h1 in
    let (sc, h3) =
      ensure-done (in_scope config f.chain_id f.environment_identifier) Marks.scope_mismatch _ h2 in
    let (n, h4) = ensure-done (bytes_eq f.nonce nonce) Marks.nonce_mismatch _ h3 in
    let (e, h5) = ensure-done (f.epoch == epoch) Marks.epoch_mismatch _ h4 in
    let scope = in_scope_sound config f.chain_id f.environment_identifier sc in
    (
      f,
      record {
        decoded = ok_or-done (strict_decode_marks_response wire max_marks_payload_len) _ e0;
        version_one = (==_iff f.version 1).0 v;
        by_root = signature_sound c config (marks_resp_signed_preimage f) f.signature _ e2;
        chain = scope.0;
        environment = scope.1;
        echoes = bytes_eq_sound f.nonce nonce n;
        at_epoch = (==_iff f.epoch epoch).0 e;
        carries = sym (done_inv h5);
      },
    )

-- The commit acknowledgement behind an accepted one.
pub record AcceptedAck (c : Crypto) (wire : List ℕ) (x : ExpectedCommitAck)
    (config : KeystoreConfig) (f : CommitAckFields) : Type 0 where
  pub decoded : strict_decode_commit_ack wire max_request_id_len ≡ some f
  pub version_one : f.version ≡ 1
  pub by_root : SignedBy c config (commit_ack_signed_preimage f) f.signature
  pub chain : f.chain_id ≡ config.twod_chain_id
  pub environment : f.environment_identifier ≡ config.environment_identifier
  pub echoes : f.nonce ≡ x.nonce
  pub at_epoch : f.epoch ≡ x.epoch
  pub at_structural : f.structural_version ≡ x.structural_version
  pub same_marks : f.marks_digest ≡ x.marks_digest
  pub same_request : f.request_id ≡ x.request_id

-- An acknowledgement is accepted only when it decodes strictly, the sealed root signed its
-- fields, and chain, environment, nonce, epoch, structural version, marks digest and request are
-- the expected ones.
pub verify_commit_ack_bytes_sound :
    (c : Crypto) (wire : List ℕ) (x : ExpectedCommitAck) (config : KeystoreConfig)
    → verify_commit_ack_bytes c wire x config ≡ done tt
    → (f : CommitAckFields) × AcceptedAck c wire x config f
unfolding verify_commit_ack_bytes
verify_commit_ack_bytes_sound c wire x config h =
    let (f, e0, h0) =
      >>=-eq-done (ok_or (strict_decode_commit_ack wire max_request_id_len) Commit.malformed) _ h in
    let (v, h1) = ensure-done (f.version == commit_ack_version) Commit.malformed _ h0 in
    let (u, e2, h2) =
      >>=-eq-done
        (checked_signature c config (commit_ack_signed_preimage f) f.signature
          Commit.signature_invalid)
        _ h1 in
    let (sc, h3) =
      ensure-done (in_scope config f.chain_id f.environment_identifier) Commit.scope_mismatch _
        h2 in
    let (n, h4) = ensure-done (bytes_eq f.nonce x.nonce) Commit.nonce_mismatch _ h3 in
    let (e, h5) = ensure-done (f.epoch == x.epoch) Commit.epoch_mismatch _ h4 in
    let (s, h6) =
      ensure-done (f.structural_version == x.structural_version) Commit.structural_mismatch _ h5 in
    let (d, h7) = ensure-done (bytes_eq f.marks_digest x.marks_digest) Commit.marks_mismatch _ h6 in
    let (q, h8) =
      ensure-done (bytes_eq f.request_id x.request_id) Commit.request_id_mismatch _ h7 in
    let scope = in_scope_sound config f.chain_id f.environment_identifier sc in
    (
      f,
      record {
        decoded = ok_or-done (strict_decode_commit_ack wire max_request_id_len) _ e0;
        version_one = (==_iff f.version 1).0 v;
        by_root = signature_sound c config (commit_ack_signed_preimage f) f.signature _ e2;
        chain = scope.0;
        environment = scope.1;
        echoes = bytes_eq_sound f.nonce x.nonce n;
        at_epoch = (==_iff f.epoch x.epoch).0 e;
        at_structural = (==_iff f.structural_version x.structural_version).0 s;
        same_marks = bytes_eq_sound f.marks_digest x.marks_digest d;
        same_request = bytes_eq_sound f.request_id x.request_id q;
      },
    )
