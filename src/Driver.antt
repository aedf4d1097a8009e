-- ===== src/Driver.antt =====
-- The driver of one serial port of bus servos:
-- src/execution/servo_hardware/servo_hardware/bus_port_driver.py.
pub mod Convert
pub mod Units
pub mod Specs
pub mod Gated
pub mod Move
pub mod Ranges
pub mod Moved
pub mod Encoders
pub mod Execute
pub mod Executed
mod Tests
