-- ===== src/Protocol.antt =====
-- crates/futu/src/protocol: the packet header, the framing codec and the body encryption.
pub mod Sha1
pub mod Header
pub mod Codec
pub mod Encryption
