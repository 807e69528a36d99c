-- ===== src/Cbor.antt =====
-- agent_cbor.rs and the CBOR writers of agent_capability.rs
-- (impl/rust/enclave-protocol/src): the strict canonical reader for host-supplied wire maps,
-- its accessors, and the shortest-form writers. The proofs stand in the children.
pub mod Value
pub mod Utf8
pub mod Encode
pub mod Parser
pub mod Head
pub mod Canonical
pub mod Typed
pub mod Access
pub mod Cancel
