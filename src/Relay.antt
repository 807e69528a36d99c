-- ===== src/Relay.antt =====
-- agent_boot_relay.rs: the request frames of the enclave and the per-operation commit.
pub mod Types
pub mod Encode
pub mod Decode
pub mod Commit
