-- ===== src/Protocol.antt =====
-- The wire protocol (src/protocol.rs): frame tags, the frame codec, and the typed messages.
pub mod FrameType
pub mod Errors
pub mod Codec
pub mod Message
