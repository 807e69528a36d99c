-- ===== src/Dispatch/Mint.antt =====
-- `handle_generate_keys` of agent_dispatch.rs, after its checks.
use d_hsm.Prelude.{ℕ, List, Option}
use d_hsm.Prelude.Attempt.{done, map_err}
use d_hsm.Prelude.Action.{Action, lift, ◌>>=◌}
use d_hsm.Crypto.{Crypto}
use d_hsm.Keystore.Types.{KeystoreBody, KeyPurpose, CreationMetadata}
use d_hsm.Capability.Parse.{AgentError}
use d_hsm.Capability.Verify.{VerifiedCapability}
use d_hsm.Signer.Curve.{Curve}
use d_hsm.Signer.Keygen.{Batch}
use d_hsm.Signer.Keygen
use d_hsm.Dispatch.Types.{AgentEnvelope, AgentResponse, generate_keys}
use d_hsm.Dispatch.Privileged.{finish_generate}
use d_hsm.Dispatch.Generate.{generate_request, creation_of, map_keygen_error}

module _ {W : Type 0} (c : Crypto) (k : Curve) (getrandom : ℕ → W → Option (List ℕ) × W) where
  -- `generate_keys(..).map_err(map_keygen_error)?`.
  abbrev pub minting : KeystoreBody → KeyPurpose → ℕ → CreationMetadata → Action W AgentError Batch
  minting candidate purpose count creation w =
      let (batch, w1) = Keygen.generate_keys k getrandom candidate purpose count creation w in
      (map_err map_keygen_error batch, w1)

  unfoldable pub handle_generate_keys :
      AgentEnvelope → KeystoreBody → VerifiedCapability → Action W AgentError AgentResponse
  unfolding generate_request Keygen.generate_keys finish_generate
  handle_generate_keys env keystore v = do
    req ← lift (generate_request c k env v)
    batch ← minting keystore req.purpose req.count (creation_of keystore v)
    candidate ← lift (finish_generate env v batch.candidate)
    lift (done (generate_keys batch.keys candidate env.request_id))
