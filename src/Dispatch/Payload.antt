-- ===== src/Dispatch/Payload.antt =====
-- The payload of a transfer and of a dispense, and `handle_sign_transfer` of agent_dispatch.rs.
use d_hsm.Prelude.{ℕ, List, ◌&&◌, leb, ◌==◌, length}
use d_hsm.Prelude.Bytes.{bytes_eq}
use d_hsm.Prelude.Attempt.{Attempt, done, ensure, ok_or, map_err, ◌>>=◌, ◌>>◌}
use d_hsm.Cbor.Value.{Entries}
use d_hsm.Cbor.Access.{
  map_get, check_strict_keys, read_at, as_u64, as_bytes, as_bytes_n, as_u256_minimal_be,
}
use d_hsm.Keystore.Types.{KeystoreBody}
use d_hsm.Capability.Parse.{AgentError, malformed, key_purpose_mismatch}
use d_hsm.Signer.Curve.{Curve, eth_address}
use d_hsm.Signer.Transfer.{EthTransferFields}
use d_hsm.Signer.Transfer
use d_hsm.Signer.Identity.{find_entry}
use d_hsm.Dispatch.Types.{AgentEnvelope, AgentResponse, sign_transfer, entry_count, is_transfer}
use d_hsm.Dispatch.Identity.{load_keypair_for}

pub record TransferRequest : Type 0 where
  pub from : List ℕ
  pub fields : EthTransferFields

-- The reads and checks that both handlers start with, up to the chain identifier.
unfoldable pub transfer_request : Entries → ℕ → Attempt AgentError TransferRequest
unfolding map_get check_strict_keys
transfer_request payload twod_chain_id = do
  ensure (entry_count payload == 8 && check_strict_keys payload (λ n. leb 1 n && leb n 8)) malformed
  req_chain_id ← ok_or (read_at as_u64 payload 1) malformed
  req_from ← ok_or (read_at (as_bytes_n 20) payload 2) malformed
  to ← ok_or (read_at (as_bytes_n 20) payload 3) malformed
  value_be ← ok_or (read_at as_u256_minimal_be payload 4) malformed
  nonce ← ok_or (read_at as_u64 payload 5) malformed
  gas_limit ← ok_or (read_at as_u64 payload 6) malformed
  gas_price_be ← ok_or (read_at as_u256_minimal_be payload 7) malformed
  data_bytes ← ok_or (read_at as_bytes payload 8) malformed
  ensure (length data_bytes == 0) malformed
  ensure (req_chain_id == twod_chain_id) malformed
  done (record {
    from = req_from;
    fields = record {
      chain_id = req_chain_id;
      nonce = nonce;
      gas_limit = gas_limit;
      to = to;
      value_be = value_be;
      gas_price_be = gas_price_be;
    };
  })

unfoldable pub handle_sign_transfer :
    Curve → AgentEnvelope → KeystoreBody → Attempt AgentError AgentResponse
unfolding transfer_request find_entry load_keypair_for Transfer.sign_transfer bytes_eq
handle_sign_transfer k env keystore = do
  key_ref ← ok_or env.key_ref malformed
  payload ← ok_or env.payload malformed
  req ← transfer_request payload keystore.config.twod_chain_id
  entry ← ok_or (find_entry keystore key_ref) key_purpose_mismatch
  ensure (is_transfer entry.purpose) key_purpose_mismatch
  keypair ← load_keypair_for k entry
  ensure (bytes_eq req.from (eth_address k keypair)) key_purpose_mismatch
  signed ← map_err (λ _. key_purpose_mismatch) (Transfer.sign_transfer k keypair req.fields)
  done (sign_transfer signed)
