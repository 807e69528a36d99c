-- ===== src/Capability.antt =====
-- agent_capability.rs (impl/rust/enclave-protocol/src): the signed authority of a privileged
-- command.
pub mod Parse
pub mod Parsed
pub mod Verify
pub mod Granted
pub mod Signed
pub mod Written
pub mod Tier
