-- ===== src/Teleop.antt =====
-- The teleoperation bridge, src/bridges/teleoperation_bridge/websocket_bridge.
pub mod Json
pub mod Parse
pub mod Formats
pub mod Runs
pub mod Ranges
pub mod Bounded
pub mod Position
pub mod Bridge
pub mod Allowed
pub mod Kept
pub mod Driven
pub mod Messages
pub mod Server
pub mod Leases
pub mod Granted
pub mod Armed
pub mod Extended
mod Tests
