-- ===== src/Zl.antt =====
-- The text protocol of the ZL bus servos:
-- src/execution/servo_hardware/servo_hardware/protocols/zl_protocol.py.
pub mod Encode
pub mod Unicode
pub mod Decode
pub mod Scanned
pub mod Frames
pub mod Echo
mod Tests
