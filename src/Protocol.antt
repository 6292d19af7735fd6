-- ===== src/Protocol.antt =====
-- protocol/messages.rs: the peer wire protocol.
pub mod Message
pub mod Bitfield
pub mod Bencode
pub mod Handshake
pub mod Codec
pub mod Stream
