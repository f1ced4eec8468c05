-- ===== src/Generated.antt =====
-- crates/futu/src/generated: the protobuf messages that the requests send, as records. What `prost`
-- derives for them, the wire format, is not modelled.
pub mod Common
pub mod Trade
pub mod Quote
pub mod Screening
pub mod Enums
pub mod Answer
