-- ===== src/Boot.antt =====
-- agent_challenge.rs, agent_boot.rs, agent_boot_driver.rs and the anti-rollback binding of
-- agent_dispatch.rs (impl/rust/enclave-protocol/src): from the challenge to the decision to
-- serve. The process-wide slots are the fields of `Process`; they are locked for one step each,
-- and a step is a function on `Process`.
pub mod Process
pub mod Adopt
pub mod Driver
pub mod ReadyOnce
pub mod AdoptExact
pub mod Handshake
pub mod Bounded
