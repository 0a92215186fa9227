-- ===== src/Protocol.antt =====
-- quic/protocol/types.go: packet numbers and stream identifiers.
mod Tests
pub mod PacketNumber
pub mod StreamId
