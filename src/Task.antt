-- ===== src/Task.antt =====
-- The contract of external tasks:
-- src/bridges/task_service_bridge/task_service_bridge/task_contract.py.
pub mod Contract
pub mod Accepted
mod Tests
