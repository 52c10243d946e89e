-- ===== src/Network.antt =====
-- network: the bytes on the wire.
pub mod Bytes
pub mod Code
pub mod Parser
pub mod Conn
pub mod Protobuf
