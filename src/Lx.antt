-- ===== src/Lx.antt =====
-- The LX bus servo protocol:
-- src/execution/servo_hardware/servo_hardware/protocols/lx_protocol.py.
pub mod Words
pub mod Packet
pub mod Commands
pub mod Encode
pub mod EncodeRead
pub mod Decode
pub mod Scan
pub mod Frames
pub mod RoundTrip
pub mod Answers
mod Tests
