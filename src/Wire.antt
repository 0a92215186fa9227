-- ===== src/Wire.antt =====
-- quic/wire: the frames and their encodings. A frame's Append and Length ignore their version
-- argument, so it is left out.
mod Tests
pub mod Field
pub mod Limits
pub mod Control
pub mod Stream
pub mod Ack
pub mod Header
pub mod LongHeader
pub mod Frame
pub mod Writable
pub mod Image
pub mod Encodable
pub mod RoundTrip
pub mod Progress
