-- ===== src/Scene.antt =====
-- The admission of structured scenes:
-- src/control/parallel_3dof_controller/parallel_3dof_controller/scene_admission.py.
pub mod Rounding
pub mod Policy
pub mod Gate
pub mod Remembered
pub mod Replay
pub mod Ready
mod Tests
