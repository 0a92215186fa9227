-- ===== src/Congestion.antt =====
-- quic/utils: congestion control.
pub mod Floats
pub mod Controller
pub mod NewReno
pub mod Cubic
pub mod Bbr
pub mod Instances
pub mod Rtt
mod Thousandths
mod Tests
