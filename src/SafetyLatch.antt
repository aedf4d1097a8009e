-- ===== src/SafetyLatch.antt =====
-- The safety latch of the servo drivers:
-- src/execution/servo_hardware/servo_hardware/safety_latch.py.
pub mod Names
pub mod Latch
pub mod Fence
mod Tests
