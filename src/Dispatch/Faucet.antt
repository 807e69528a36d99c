-- ===== src/Dispatch/Faucet.antt =====
-- `is_known_transfer_recipient` and `handle_sign_faucet_dispense` of agent_dispatch.rs.
use d_hsm.Prelude.{ℕ, List, [], ◌∷◌, Bool, false, not, ◌&&◌, ◌||◌, ◌==◌, length}
use d_hsm.Prelude.Bytes.{bytes_eq}
use d_hsm.Prelude.Attempt.{Attempt, done, failed, ensure, ok_or, map_err, ◌>>=◌, ◌>>◌}
use d_hsm.U256.{from_minimal_be}
use d_hsm.Keystore.Types.{KeystoreBody, KeyEntry, FaucetState}
use d_hsm.Keystore.Faucet.{FaucetResult, accepted, rejected, accept_and_debit}
use d_hsm.Keystore.Epoch.{advance_commit_epoch}
use d_hsm.Capability.Parse.{AgentError, malformed, key_purpose_mismatch, cap_exceeded}
use d_hsm.Signer.Curve.{Curve, Keypair, Secp256k1Error, eth_address, eth_address_from_uncompressed}
use d_hsm.Signer.Transfer.{EthTransferFields, sign_transfer}
use d_hsm.Signer.Identity.{find_entry}
use d_hsm.Dispatch.Opcode
use d_hsm.Dispatch.Opcode.{commit_bump_class, is_structural}
use d_hsm.Dispatch.Types.{
  AgentEnvelope, AgentResponse, sign_faucet_dispense, is_transfer, or_seal_failed,
}
use d_hsm.Dispatch.Identity.{load_keypair_for}
use d_hsm.Dispatch.Payload.{TransferRequest, transfer_request}

-- `.ok().is_some_and(|addr| addr == to)`.
abbrev pub address_is : List ℕ → Attempt Secp256k1Error (List ℕ) → Bool
address_is to (done address) = bytes_eq address to
address_is to (failed e) = false

unfoldable pub has_recipient : Curve → List ℕ → List KeyEntry → Bool
unfolding bytes_eq eth_address_from_uncompressed
has_recipient k to [] = false
has_recipient k to (e ∷ es) =
    is_transfer e.purpose
      && length e.public_identity == 65
      && address_is to (eth_address_from_uncompressed k e.public_identity)
    || has_recipient k to es

unfoldable pub is_known_transfer_recipient : Curve → KeystoreBody → List ℕ → Bool
unfolding has_recipient
is_known_transfer_recipient k keystore to = has_recipient k to keystore.entries

-- `.map_err(|_| AgentError::CapExceeded)`.
abbrev pub within_caps : FaucetResult FaucetState → Attempt AgentError FaucetState
within_caps (accepted f) = done f
within_caps (rejected e) = failed cap_exceeded

-- The handler's checks on the key and the recipient; the key pair.
unfoldable pub treasury_signer :
    Curve → KeystoreBody → List ℕ → TransferRequest → Attempt AgentError Keypair
unfolding find_entry load_keypair_for bytes_eq is_known_transfer_recipient
treasury_signer k keystore key_ref req = do
  entry ← ok_or (find_entry keystore key_ref) key_purpose_mismatch
  ensure (not (is_transfer entry.purpose)) key_purpose_mismatch
  keypair ← load_keypair_for k entry
  ensure (bytes_eq req.from (eth_address k keypair)) key_purpose_mismatch
  ensure (is_known_transfer_recipient k keystore req.fields.to) key_purpose_mismatch
  done keypair

-- The handler from the debit on.
unfoldable pub debit_and_sign :
    Curve
    → AgentEnvelope
    → KeystoreBody
    → Keypair
    → EthTransferFields
    → List ℕ
    → List ℕ
    → Attempt AgentError AgentResponse
unfolding accept_and_debit sign_transfer advance_commit_epoch
debit_and_sign k env keystore keypair fields amount gas_price = do
  new_faucet ← within_caps (accept_and_debit keystore.faucet amount fields.gas_limit gas_price)
  signed ← map_err (λ _. key_purpose_mismatch) (sign_transfer k keypair fields)
  candidate ← or_seal_failed (
      advance_commit_epoch (record keystore { faucet = new_faucet })
        (is_structural (commit_bump_class Opcode.sign_faucet_dispense)))
  done (sign_faucet_dispense signed candidate env.request_id)

unfoldable pub handle_sign_faucet_dispense :
    Curve → AgentEnvelope → KeystoreBody → Attempt AgentError AgentResponse
unfolding transfer_request from_minimal_be treasury_signer debit_and_sign
handle_sign_faucet_dispense k env keystore = do
  key_ref ← ok_or env.key_ref malformed
  payload ← ok_or env.payload malformed
  req ← transfer_request payload keystore.config.twod_chain_id
  amount ← ok_or (from_minimal_be req.fields.value_be) malformed
  gas_price ← ok_or (from_minimal_be req.fields.gas_price_be) malformed
  keypair ← treasury_signer k keystore key_ref req
  debit_and_sign k env keystore keypair req.fields amount gas_price
