-- ===== src/Anchor.antt =====
-- agent_anchor.rs (impl/rust/enclave-protocol/src): the freshness anchor's signed messages and
-- the reconciliation of its state with the sealed one.
pub mod Types
pub mod Response
pub mod Marks
pub mod Commit
pub mod Reconcile
pub mod Parsed
pub mod Accepted
pub mod Signed
pub mod Written
