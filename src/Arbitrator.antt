-- ===== src/Arbitrator.antt =====
-- The command arbitrator of the execution manager:
-- src/execution/execution_manager/execution_manager/arbitrator.py.
pub mod State
pub mod Tombstones
pub mod Refresh
pub mod Replies
pub mod Command
pub mod TaskControl
pub mod TeleopControl
pub mod Estop
pub mod Invariant
pub mod Refreshed
pub mod Preserved
pub mod Events
pub mod Exclusion
pub mod Admission
pub mod Stopped
pub mod Replay
pub mod Settled
pub mod Settling
pub mod Memory
pub mod Restart
mod Tests
