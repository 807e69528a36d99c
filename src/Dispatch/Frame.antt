-- ===== src/Dispatch/Frame.antt =====
-- The slots of agent_dispatch.rs, `commit_candidate_to_anchor`, `commit_before_emit` and
-- `handle_agent_gateway_frame`. The generator, the commit channel and the provisioning root
-- belong to a world `W`.
pub mod Sealed
pub mod Sound
pub mod Trail
pub mod Recover
use d_hsm.Prelude.{ℕ, List, Bool, true, false, not, Option, none, some, ◌==◌, if◌then◌else◌, length}
use d_hsm.Prelude.Attempt.{Attempt, done, failed, ensure, ok_or, map_err}
use d_hsm.Prelude.Action.{Action, lift, ◌>>=◌, ◌>>◌}
use d_hsm.Crypto.{Crypto}
use d_hsm.Keystore.Types.{KeystoreBody}
use d_hsm.Keystore.Marks.{compute_local_marks_digest}
use d_hsm.Keystore.Seal.{Sealer}
use d_hsm.Keystore.Seal.Body.{seal_body}
use d_hsm.Boot.Process.{Process}
use d_hsm.Capability.Parse.{AgentError, wrong_profile, seal_failed}
use d_hsm.Relay.Types.{Ciborium, AnchorCommit}
use d_hsm.Relay.Commit.{run_anchor_commit}
use d_hsm.Signer.Curve.{Curve}
use d_hsm.Dispatch.Types.{
  Features, agent_gateway, AgentResponse, public_identity, prove_identity, sign_transfer,
  generate_keys, sign_faucet_dispense, configure_treasury,
}
use d_hsm.Dispatch.Route.{dispatch_agent}
use d_hsm.Dispatch.Respond.{
  encode_agent_error, encode_agent_response, encode_generate_keys_response,
  encode_sign_faucet_dispense_response, encode_configure_treasury_response,
}

-- `InstalledAgentKeystore`.
pub record Installed : Type 0 where
  pub body : KeystoreBody
  pub measurement : List ℕ

-- The slots of the process, and the world.
pub record Gateway (W : Type 0) : Type 0 where
  pub installed : Option Installed
  pub process : Process
  pub channel_installed : Bool
  pub world : W

-- `getrandom`, the channel and `resolve_provisioning_root`.
pub record Host (W : Type 0) : Type 0 where
  pub getrandom : ℕ → W → Option (List ℕ) × W
  pub round_trip : List ℕ → Action W (List ℕ) (List ℕ)
  pub resolve_provisioning_root : W → Option (List ℕ)

-- The libraries that the gateway calls, and the features that it is built with.
pub record Build : Type 0 where
  pub crypto : Crypto
  pub curve : Curve
  pub sealer : Sealer
  pub cbor : Ciborium
  pub features : Features

module _ {W : Type 0} where
  abbrev install_keystore : KeystoreBody → List ℕ → Option Installed → Gateway W → Bool × Gateway W
  install_keystore body measurement none g =
      (true, record g { installed = some (record { body = body; measurement = measurement }) })
  install_keystore body measurement (some old) g = (false, g)

  unfoldable pub install_agent_keystore : KeystoreBody → List ℕ → Gateway W → Bool × Gateway W
  install_agent_keystore body measurement g =
      if length measurement == 0
      then (false, g)
      else install_keystore body measurement g.installed g

  unfoldable pub install_commit_channel : Gateway W → Bool × Gateway W
  install_commit_channel g =
      if g.channel_installed then (false, g) else (true, record g { channel_installed = true })

abbrev pub proposed : Crypto → KeystoreBody → List ℕ → List ℕ → AnchorCommit
proposed c candidate nonce request_id = record {
  new_epoch = candidate.freshness_epoch;
  new_structural_version = candidate.structural_version;
  marks_digest = compute_local_marks_digest c.sha3_256 candidate;
  nonce = nonce;
  request_id = request_id;
}

module _ {W : Type 0} (b : Build) (host : Host W) where
  abbrev pub draw_commit_nonce : Action W AgentError (List ℕ)
  draw_commit_nonce w = let (drawn, w1) = host.getrandom 32 w in (ok_or drawn seal_failed, w1)

  abbrev pub commit_leg : AnchorCommit → KeystoreBody → Action W AgentError (Unit {0})
  commit_leg commit candidate w =
      let (r, w1) = run_anchor_commit b.crypto host.round_trip commit candidate.config w in
      (map_err (λ _. seal_failed) r, w1)

  unfoldable pub commit_candidate_to_anchor :
      Bool → KeystoreBody → List ℕ → Action W AgentError (Unit {0})
  unfolding compute_local_marks_digest run_anchor_commit
  commit_candidate_to_anchor channel_installed candidate request_id = do
    nonce ← draw_commit_nonce
    lift (ensure channel_installed seal_failed)
    commit_leg (proposed b.crypto candidate nonce request_id) candidate

  -- The root, then the blob.
  abbrev pub root_leg : Action W AgentError (List ℕ)
  root_leg w = (ok_or (host.resolve_provisioning_root w) seal_failed, w)

  abbrev pub seal_leg : KeystoreBody → List ℕ → List ℕ → Action W AgentError (List ℕ)
  seal_leg candidate root measurement w =
      let (r, w1) = seal_body b.crypto b.sealer host.getrandom candidate root measurement w in
      (map_err (λ _. seal_failed) r, w1)

  -- Seal, then commit; the blob.
  unfoldable pub seal_and_commit :
      Bool → KeystoreBody → List ℕ → List ℕ → Action W AgentError (List ℕ)
  unfolding seal_body commit_candidate_to_anchor
  seal_and_commit channel_installed candidate request_id measurement = do
    root ← root_leg
    sealed ← seal_leg candidate root measurement
    commit_candidate_to_anchor channel_installed candidate request_id
    lift (done sealed)

  -- Swap and emit.
  abbrev pub swapped :
      KeystoreBody
      → List ℕ
      → (List ℕ → List ℕ)
      → Gateway W
      → Attempt AgentError (List ℕ) × W
      → List ℕ × Gateway W
  swapped candidate measurement encode_response g (done sealed, w) = (
    encode_response sealed,
    record g {
      installed = some (record { body = candidate; measurement = measurement });
      world = w;
    },
  )
  swapped candidate measurement encode_response g (failed e, w) =
      (encode_agent_error b.cbor e, record g { world = w })

  unfoldable pub commit_before_emit :
      KeystoreBody → List ℕ → List ℕ → (List ℕ → List ℕ) → Gateway W → List ℕ × Gateway W
  unfolding seal_and_commit encode_agent_error
  commit_before_emit candidate request_id measurement encode_response g =
      swapped candidate measurement encode_response g
        (seal_and_commit g.channel_installed candidate request_id measurement g.world)

  -- The match on the outcome, in a state whose world the dispatch has moved on.
  unfoldable pub responded :
      List ℕ → Gateway W → Attempt AgentError AgentResponse → List ℕ × Gateway W
  unfolding commit_before_emit encode_agent_error encode_agent_response
      encode_generate_keys_response encode_sign_faucet_dispense_response
      encode_configure_treasury_response
  responded measurement g (done (generate_keys keys candidate request_id)) =
      commit_before_emit candidate request_id measurement
        (λ sealed. encode_generate_keys_response b.cbor keys sealed) g
  responded measurement g (done (sign_faucet_dispense signed candidate request_id)) =
      commit_before_emit candidate request_id measurement
        (λ sealed. encode_sign_faucet_dispense_response b.cbor signed sealed) g
  responded measurement g (done (configure_treasury candidate request_id)) =
      commit_before_emit candidate request_id measurement
        (λ sealed. encode_configure_treasury_response b.cbor sealed) g
  responded measurement g (done (public_identity id)) =
      (encode_agent_response b.cbor (public_identity id), g)
  responded measurement g (done (prove_identity proof)) =
      (encode_agent_response b.cbor (prove_identity proof), g)
  responded measurement g (done (sign_transfer t)) =
      (encode_agent_response b.cbor (sign_transfer t), g)
  responded measurement g (failed e) = (encode_agent_error b.cbor e, g)

  abbrev pub dispatched :
      List ℕ → Gateway W → Attempt AgentError AgentResponse × W → List ℕ × Gateway W
  dispatched measurement g (outcome, w) = responded measurement (record g { world = w }) outcome

  abbrev pub served : List ℕ → Gateway W → Option Installed → List ℕ × Gateway W
  served wire g none = (encode_agent_error b.cbor wrong_profile, g)
  served wire g (some i) = dispatched i.measurement g (
      dispatch_agent b.crypto b.curve b.features host.getrandom agent_gateway wire i.body g.process
        g.world)

  unfoldable pub handle_agent_gateway_frame : List ℕ → Gateway W → List ℕ × Gateway W
  unfolding dispatch_agent responded encode_agent_error
  handle_agent_gateway_frame wire g = served wire g g.installed
