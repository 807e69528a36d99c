-- ===== src/Dispatch/Respond.antt =====
-- The response bodies of agent_dispatch.rs. ciborium writes them.
use d_hsm.Prelude.{ℕ, List, [], ◌∷◌}
use d_hsm.Cbor.Value.{
  Value, Items, Entries, unsigned, bytes, text, array, map_of, nil, cons, end, entry,
}
use d_hsm.Keystore.Types.{KeyPurpose, agent_transfer_k1, agent_faucet_treasury_k1}
use d_hsm.Capability.Parse.{
  AgentError, malformed, wrong_profile, key_purpose_mismatch, capability_rejected, cap_exceeded,
  not_configured, seal_failed,
}
use d_hsm.Signer.Transfer.{SignedTransfer}
use d_hsm.Signer.Identity.{PublicIdentity, IdentityProof}
use d_hsm.Signer.Keygen.{GeneratedKey}
use d_hsm.Relay.Types.{Ciborium}
use d_hsm.Dispatch.Types.{
  AgentResponse, public_identity, prove_identity, sign_transfer, generate_keys,
  sign_faucet_dispense, configure_treasury,
}

-- `AgentError::code`.
abbrev pub code : AgentError → ℕ
code malformed = 0x40
code wrong_profile = 0x41
code key_purpose_mismatch = 0x42
code capability_rejected = 0x43
code cap_exceeded = 0x44
code not_configured = 0x45
code seal_failed = 0x46

abbrev pub reason : AgentError → List ℕ
reason malformed =
    b'a' ∷ b'g' ∷ b'e' ∷ b'n' ∷ b't' ∷ b':' ∷ 32 ∷ b'm' ∷ b'a' ∷ b'l' ∷ b'f' ∷ b'o' ∷ b'r' ∷ b'm'
    ∷ b'e' ∷ b'd' ∷ 32 ∷ b'r' ∷ b'e' ∷ b'q' ∷ b'u' ∷ b'e' ∷ b's' ∷ b't' ∷ []
reason wrong_profile =
    b'a' ∷ b'g' ∷ b'e' ∷ b'n' ∷ b't' ∷ b':' ∷ 32 ∷ b'w' ∷ b'r' ∷ b'o' ∷ b'n' ∷ b'g' ∷ 32 ∷ b'p'
    ∷ b'r' ∷ b'o' ∷ b'f' ∷ b'i' ∷ b'l' ∷ b'e' ∷ []
reason key_purpose_mismatch =
    b'a' ∷ b'g' ∷ b'e' ∷ b'n' ∷ b't' ∷ b':' ∷ 32 ∷ b'k' ∷ b'e' ∷ b'y' ∷ 32 ∷ b'p' ∷ b'u' ∷ b'r'
    ∷ b'p' ∷ b'o' ∷ b's' ∷ b'e' ∷ 32 ∷ b'm' ∷ b'i' ∷ b's' ∷ b'm' ∷ b'a' ∷ b't' ∷ b'c' ∷ b'h' ∷ []
reason capability_rejected =
    b'a' ∷ b'g' ∷ b'e' ∷ b'n' ∷ b't' ∷ b':' ∷ 32 ∷ b'c' ∷ b'a' ∷ b'p' ∷ b'a' ∷ b'b' ∷ b'i' ∷ b'l'
    ∷ b'i' ∷ b't' ∷ b'y' ∷ 32 ∷ b'r' ∷ b'e' ∷ b'j' ∷ b'e' ∷ b'c' ∷ b't' ∷ b'e' ∷ b'd' ∷ []
reason cap_exceeded =
    b'a' ∷ b'g' ∷ b'e' ∷ b'n' ∷ b't' ∷ b':' ∷ 32 ∷ b'c' ∷ b'a' ∷ b'p' ∷ 32 ∷ b'e' ∷ b'x' ∷ b'c'
    ∷ b'e' ∷ b'e' ∷ b'd' ∷ b'e' ∷ b'd' ∷ []
reason not_configured =
    b'a' ∷ b'g' ∷ b'e' ∷ b'n' ∷ b't' ∷ b':' ∷ 32 ∷ b'n' ∷ b'o' ∷ b't' ∷ 32 ∷ b'c' ∷ b'o' ∷ b'n'
    ∷ b'f' ∷ b'i' ∷ b'g' ∷ b'u' ∷ b'r' ∷ b'e' ∷ b'd' ∷ []
reason seal_failed =
    b'a' ∷ b'g' ∷ b'e' ∷ b'n' ∷ b't' ∷ b':' ∷ 32 ∷ b's' ∷ b'e' ∷ b'a' ∷ b'l' ∷ 32 ∷ b'f' ∷ b'a'
    ∷ b'i' ∷ b'l' ∷ b'e' ∷ b'd' ∷ []

abbrev pub key_purpose_code : KeyPurpose → ℕ
key_purpose_code agent_transfer_k1 = 1
key_purpose_code agent_faucet_treasury_k1 = 2

abbrev pub at : ℕ → Value → Entries → Entries
at k v es = entry (unsigned k) v es

abbrev pub error_body : AgentError → Value
error_body e = map_of (at 1 (unsigned (code e)) (at 2 (text (reason e)) end))

-- The keys 1 to 7 of a signed transaction, before the entries `rest`.
abbrev pub signed_entries : SignedTransfer → Entries → Entries
signed_entries t rest = at 1 (bytes t.signed_rlp) (
    at 2 (bytes t.signature.r) (
      at 3 (bytes t.signature.s) (
        at 4 (unsigned t.signature.recovery_id)
          (at 5 (unsigned t.v) (at 6 (bytes t.signing_hash) (at 7 (bytes t.from) rest))))))

abbrev pub identity_body : PublicIdentity → Value
identity_body id = map_of (
    at 1 (bytes id.pubkey_uncompressed) (
      at 2 (bytes id.eth_address) (
        at 3 (text id.tron_address) (
          at 4 (bytes id.key_ref) (
            at 5 (unsigned (key_purpose_code id.key_purpose))
              (at 6 (unsigned id.agent_version) end))))))

abbrev pub proof_body : IdentityProof → Value
proof_body p = map_of (
    at 1 (bytes p.signature.r) (
      at 2 (bytes p.signature.s) (
        at 3 (unsigned p.signature.recovery_id)
          (at 4 (bytes p.address) (at 5 (bytes p.pubkey_uncompressed) end)))))

abbrev pub key_body : GeneratedKey → Value
key_body g = map_of (
    at 1 (bytes g.key_ref) (
      at 2 (bytes g.pubkey_uncompressed) (
        at 3 (bytes g.eth_address)
          (at 4 (text g.tron_address) (at 5 (unsigned (key_purpose_code g.key_purpose)) end)))))

abbrev pub key_list : List GeneratedKey → Items
key_list [] = nil
key_list (g ∷ gs) = cons (key_body g) (key_list gs)

module _ (cb : Ciborium) where
  unfoldable pub encode_agent_error : AgentError → List ℕ
  encode_agent_error e = cb.into_writer (error_body e)

  -- A mutation that comes here was routed past the seam.
  unfoldable pub encode_agent_response : AgentResponse → List ℕ
  unfolding encode_agent_error
  encode_agent_response (public_identity id) = cb.into_writer (identity_body id)
  encode_agent_response (prove_identity proof) = cb.into_writer (proof_body proof)
  encode_agent_response (sign_transfer t) = cb.into_writer (map_of (signed_entries t end))
  encode_agent_response (generate_keys keys candidate request_id) = encode_agent_error seal_failed
  encode_agent_response (sign_faucet_dispense signed candidate request_id) =
      encode_agent_error seal_failed
  encode_agent_response (configure_treasury candidate request_id) = encode_agent_error seal_failed

  unfoldable pub encode_generate_keys_response : List GeneratedKey → List ℕ → List ℕ
  encode_generate_keys_response keys sealed_blob =
      cb.into_writer (map_of (at 1 (array (key_list keys)) (at 2 (bytes sealed_blob) end)))

  unfoldable pub encode_sign_faucet_dispense_response : SignedTransfer → List ℕ → List ℕ
  encode_sign_faucet_dispense_response signed sealed_blob =
      cb.into_writer (map_of (signed_entries signed (at 8 (bytes sealed_blob) end)))

  unfoldable pub encode_configure_treasury_response : List ℕ → List ℕ
  encode_configure_treasury_response sealed_blob =
      cb.into_writer (map_of (at 1 (bytes sealed_blob) end))
