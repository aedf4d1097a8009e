-- ===== src/Manager.antt =====
-- The execution manager's node around the arbitrator:
-- src/execution/execution_manager/execution_manager/execution_manager_node.py and its three adapters.
pub mod Commands
pub mod Feedback
pub mod Service
pub mod State
pub mod Published
pub mod Handlers
pub mod Stopping
pub mod Operations
pub mod System
pub mod Owners
pub mod Faults
pub mod Blocked
pub mod Kept
pub mod Held
pub mod Stamps
pub mod Ranked
pub mod Outranked
mod Tests
