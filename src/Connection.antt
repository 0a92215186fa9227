-- ===== src/Connection.antt =====
-- quic/conn.go.
pub mod AckRanges
pub mod Frames
pub mod Transfer
pub mod Writing
pub mod Pipe
pub mod EventLoop
pub mod State
pub mod Runs
pub mod Setup
pub mod Closing
pub mod Receive
pub mod Sending
pub mod Loss
mod Traces
mod Tests
