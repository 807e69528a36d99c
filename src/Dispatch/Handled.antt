-- ===== src/Dispatch/Handled.antt =====
-- What the handlers of agent_dispatch.rs do to the candidate that they return.
pub mod Tail
pub mod Bytes
pub mod Minted
pub mod Treasury
pub mod Dispense
