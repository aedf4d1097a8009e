-- ===== src/Router.antt =====
-- The router of servo commands to ports and protocols:
-- src/execution/servo_hardware/servo_hardware/bus_protocol_router.py and bus_protocol_registry.py.
pub mod Registry
pub mod Probing
pub mod Route
pub mod Resolved
pub mod Pending
pub mod Routed
pub mod Relay
pub mod Relayed
pub mod Service
pub mod Learned
mod Tests
