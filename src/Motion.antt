-- ===== src/Motion.antt =====
-- The pure logic of motion goals:
-- src/control/parallel_3dof_controller/parallel_3dof_controller/motion_execution.py.
pub mod Float
pub mod Goal
pub mod Feedback
pub mod TaskState
pub mod Checked
pub mod Admitted
pub mod Reached
pub mod Tracked
mod Tests
