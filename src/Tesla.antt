-- ===== src/Tesla.antt =====
-- The Tesla HSC and FC100 protocol records: framing, protobuf wire shapes, operations and admission.
pub mod Varint
pub mod Field
pub mod Envelope
pub mod Operation
pub mod Wire
pub mod Matrix
pub mod Profile
pub mod Replay
pub mod Codec
mod Tests
