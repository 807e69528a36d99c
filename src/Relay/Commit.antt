-- ===== src/Relay/Commit.antt =====
-- `run_anchor_commit` of agent_boot_relay.rs. The channel's `round_trip` is a function on the
-- world; its deadline is the channel's.
use d_hsm.Prelude.{ℕ, List}
use d_hsm.Prelude.Attempt.{map_err}
use d_hsm.Prelude.Action.{Action, lift, ◌>>=◌}
use d_hsm.Crypto.{Crypto}
use d_hsm.Keystore.Types.{KeystoreConfig}
use d_hsm.Anchor.Commit.{verify_commit_ack_bytes}
use d_hsm.Relay.Types.{AnchorCommit, AnchorCommitRequest, CommitFailure, encode, transport, ack}
use d_hsm.Relay.Encode.{encode_anchor_commit_request}

abbrev pub commit_request : AnchorCommit → KeystoreConfig → AnchorCommitRequest
commit_request commit config = record {
  chain_id = config.twod_chain_id;
  environment_identifier = config.environment_identifier;
  new_epoch = commit.new_epoch;
  new_structural_version = commit.new_structural_version;
  marks_digest = commit.marks_digest;
  nonce = commit.nonce;
  request_id = commit.request_id;
}

module _ {W : Type 0} (c : Crypto) (round_trip : List ℕ → Action W (List ℕ) (List ℕ)) where
  -- `channel.round_trip(..).map_err(CommitFailure::Transport)`.
  abbrev pub channel_leg : List ℕ → Action W CommitFailure (List ℕ)
  channel_leg frame w = let (answer, w1) = round_trip frame w in (map_err transport answer, w1)

  unfoldable pub run_anchor_commit :
      AnchorCommit → KeystoreConfig → Action W CommitFailure (Unit {0})
  unfolding encode_anchor_commit_request verify_commit_ack_bytes
  run_anchor_commit commit config = do
    frame ←
        lift (map_err (λ _. encode) (encode_anchor_commit_request (commit_request commit config)))
    wire ← channel_leg frame
    lift (
        map_err ack (
          verify_commit_ack_bytes c wire
            (record {
              nonce = commit.nonce;
              epoch = commit.new_epoch;
              structural_version = commit.new_structural_version;
              marks_digest = commit.marks_digest;
              request_id = commit.request_id;
            })
            config))
