-- ===== src/Keystore.antt =====
-- agent_keystore.rs: the sealed body and its operations. A `[u8; N]`, a `Vec<u8>` and the bytes of
-- a `String` are lists of bytes; a method that takes `&mut self` returns the new body, and on an
-- error the caller's body is the old one.
pub mod Types
pub mod Faucet
pub mod Counter
pub mod Audit
pub mod Validate
pub mod Epoch
pub mod Marks
pub mod Seal
pub mod Grows
