-- ===== src/Proto.antt =====
-- nod-proto/src: the values that go over the wire.
pub mod Answer
pub mod Request
pub mod Json
pub mod Signing
pub mod ValueSigning
pub mod Receipt
pub mod Preview
