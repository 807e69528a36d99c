-- ===== src/Signer.antt =====
-- The transaction and identity signers: secp256k1.rs, rlp.rs, agent_transfer.rs,
-- agent_identity.rs and agent_keygen.rs.
pub mod Curve
pub mod Rlp
pub mod Transfer
pub mod Identity
pub mod Keygen
