-- ===== src/Arbitrator/Preserved.antt =====
-- The invariant through every operation of the arbitrator.
pub mod Rules
pub mod Command
pub mod TaskControl
pub mod TeleopControl
