-- ===== src/Relay/Types.antt =====
-- The data of agent_boot_relay.rs, and ciborium's reader and writer of values.
use d_hsm.Prelude.{ℕ, List, Option}
use d_hsm.Cbor.Value.{Value}
use d_hsm.Frame.{FrameError}
use d_hsm.Anchor.Commit.{CommitAckError}

pub record Ciborium : Type 0 where
  pub into_writer : Value → List ℕ
  -- The value and the position that the reader ended at.
  pub from_reader : List ℕ → Option (Value × ℕ)

-- `ProtocolError`, the wire errors by what they say.
pub data RelayError : Type 0 where
  frame : FrameError → RelayError
  wrong_type bad_cbor trailing_bytes not_a_map bad_keys bad_uint bad_version : RelayError
  bad_environment bad_nonce bad_report_data bad_quote quote_too_large bad_chain : RelayError
  chain_too_large report_data_inconsistent bad_digest bad_request_id : RelayError

pub record DecodedBootRequest : Type 0 where
  pub chain_id : ℕ
  pub environment_identifier : List ℕ
  pub nonce : List ℕ
  pub report_data : List ℕ
  pub quote_report : List ℕ
  pub cert_chain : List ℕ

pub record DecodedMarksRequest : Type 0 where
  pub chain_id : ℕ
  pub environment_identifier : List ℕ
  pub nonce : List ℕ
  pub epoch : ℕ

-- The request of a commit, and what the host decodes from it.
pub record AnchorCommitRequest : Type 0 where
  pub chain_id : ℕ
  pub environment_identifier : List ℕ
  pub new_epoch : ℕ
  pub new_structural_version : ℕ
  pub marks_digest : List ℕ
  pub nonce : List ℕ
  pub request_id : List ℕ

pub record AnchorCommit : Type 0 where
  pub new_epoch : ℕ
  pub new_structural_version : ℕ
  pub marks_digest : List ℕ
  pub nonce : List ℕ
  pub request_id : List ℕ

-- An error of the transport is its text.
pub data CommitFailure : Type 0 where
  encode : CommitFailure
  transport : List ℕ → CommitFailure
  ack : CommitAckError → CommitFailure

abbrev pub relay_request_version : ℕ
relay_request_version = 1

abbrev pub marks_request_version : ℕ
marks_request_version = 1

abbrev pub commit_request_version : ℕ
commit_request_version = 1

abbrev pub max_quote_report_len : ℕ
max_quote_report_len = 8192

-- `MAX_CERT_CHAIN_LEN` of snp_report.rs.
abbrev pub max_cert_chain_len : ℕ
max_cert_chain_len = 65536
