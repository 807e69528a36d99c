-- ===== src/Envelope.antt =====
-- The positional decoders of agent_cbor.rs for the anchor's signed messages: the marks payload, the
-- marks response and the commit ack.
pub mod Marks
pub mod Signed
pub mod Fields
pub mod MarksExact
pub mod MarksSound
