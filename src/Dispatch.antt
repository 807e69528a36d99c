-- ===== src/Dispatch.antt =====
-- agent_dispatch.rs, as it is compiled without `agent-backup-export-preview`; the other preview
-- features are the record `Features`.
pub mod Opcode
pub mod Types
pub mod Envelope
pub mod Identity
pub mod Payload
pub mod Privileged
pub mod Faucet
pub mod Generate
pub mod Mint
pub mod Treasury
pub mod Route
pub mod Respond
pub mod Frame
pub mod Handled
pub mod Outcome
