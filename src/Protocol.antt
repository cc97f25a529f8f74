-- ===== src/Protocol.antt =====
-- src/protocol: the binary wire protocol.
pub mod PacketType
pub mod Command
pub mod Header
pub mod Packet
pub mod Codec
mod Tests
