-- ===== src/Runs.antt =====
-- Runs of the components at concrete inputs, as small as the checks of the code allow.
pub mod Data
mod Messages
pub mod Dispense
mod Frames
mod Sealed
mod Handshakes
mod Commands
