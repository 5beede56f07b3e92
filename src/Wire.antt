-- ===== src/Wire.antt =====
-- The on-wire message (src/proto/wire.rs): header, payload, whole message.
pub mod Header
pub mod Payload
pub mod Message
mod Tests
