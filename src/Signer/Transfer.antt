-- ===== src/Signer/Transfer.antt =====
-- agent_transfer.rs.
use d_hsm.Prelude.{ℕ, ◌+◌, ◌*◌, ◌^◌, List, [], ◌∷◌, not, ◌||◌, leb, ltb, if◌then◌else◌, length}
use d_hsm.Prelude.Bytes.{be_bytes, bytes_eq}
use d_hsm.Prelude.Attempt.{Attempt, done, failed, ensure, map_err, ◌>>=◌, ◌>>◌}
use d_hsm.Signer.Curve.{
  Curve, Keypair, RecoverableSignature, eth_address, sign_prehashed, eth_address_from_uncompressed,
  recover_pubkey_uncompressed,
}
use d_hsm.Signer.Rlp.{encode_bytes, encode_uint_minimal, encode_list}

pub record EthTransferFields : Type 0 where
  pub chain_id : ℕ
  pub nonce : ℕ
  pub gas_limit : ℕ
  pub to : List ℕ
  pub value_be : List ℕ
  pub gas_price_be : List ℕ

pub data SignTransferError : Type 0 where
  value_too_wide chain_id_overflow sign recovery_mismatch : SignTransferError

pub record SignedTransfer : Type 0 where
  pub signature : RecoverableSignature
  pub v : ℕ
  pub signing_hash : List ℕ
  pub signed_rlp : List ℕ
  pub from : List ℕ

abbrev pub u64_item : ℕ → List ℕ
u64_item n = encode_uint_minimal (be_bytes 8 n)

unfoldable pub unsigned_preimage : EthTransferFields → List ℕ
unfolding be_bytes encode_bytes encode_uint_minimal encode_list
unsigned_preimage f = encode_list (
    u64_item f.nonce
    ∷ encode_uint_minimal f.gas_price_be
    ∷ u64_item f.gas_limit
    ∷ encode_bytes f.to
    ∷ encode_uint_minimal f.value_be
    ∷ encode_bytes []
    ∷ u64_item f.chain_id
    ∷ encode_uint_minimal []
    ∷ encode_uint_minimal []
    ∷ [])

unfoldable pub signed_rlp : EthTransferFields → RecoverableSignature → ℕ → List ℕ
unfolding be_bytes encode_bytes encode_uint_minimal encode_list
signed_rlp f sig v = encode_list (
    u64_item f.nonce
    ∷ encode_uint_minimal f.gas_price_be
    ∷ u64_item f.gas_limit
    ∷ encode_bytes f.to
    ∷ encode_uint_minimal f.value_be
    ∷ encode_bytes []
    ∷ u64_item v
    ∷ encode_uint_minimal sig.r
    ∷ encode_uint_minimal sig.s
    ∷ [])

-- A `u64` that a checked step has reached.
abbrev pub checked_u64 : ℕ → Attempt SignTransferError ℕ
checked_u64 n = if leb (2 ^ 64) n then failed chain_id_overflow else done n

unfoldable pub sign_transfer :
    Curve → Keypair → EthTransferFields → Attempt SignTransferError SignedTransfer
unfolding unsigned_preimage signed_rlp sign_prehashed recover_pubkey_uncompressed
    eth_address_from_uncompressed bytes_eq
sign_transfer k keypair f = do
  ensure (not (ltb 32 (length f.value_be) || ltb 32 (length f.gas_price_be))) value_too_wide
  let from = eth_address k keypair
  let signing_hash = k.keccak256 (unsigned_preimage f)
  signature ← map_err (λ _. sign) (sign_prehashed k keypair signing_hash)
  doubled ← checked_u64 (f.chain_id * 2)
  offset ← checked_u64 (doubled + 35)
  v ← checked_u64 (offset + signature.recovery_id)
  recovered ← map_err (λ _. sign) (recover_pubkey_uncompressed k signing_hash signature)
  recovered_addr ← map_err (λ _. sign) (eth_address_from_uncompressed k recovered)
  ensure (bytes_eq recovered_addr from) recovery_mismatch
  done (record {
    signature = signature;
    v = v;
    signing_hash = signing_hash;
    signed_rlp = signed_rlp f signature v;
    from = from;
  })
