-- ===== src/Manager/Outranked.antt =====
-- Stops of the node against its releases, at the latches of the drivers.
use robot_runtime.Prelude.{arith, false, some, ℕ, ◌≡◌}
use robot_runtime.Manager.State.{DriverSafetyState, Manager, time_of_ns}
use robot_runtime.Manager.System.{System}
use robot_runtime.Prelude.Int.{pos, ℤ, ◌+ℤ◌, ◌-ℤ◌}
use robot_runtime.SafetyLatch.Latch.{Latch, observe_authority, ros_time_to_ns}

pub ros_time_to_ns-time_of_ns : (ns : ℕ) → ros_time_to_ns (some (time_of_ns ns)) ≡ pos ns
unfolding ros_time_to_ns time_of_ns ◌+ℤ◌ ◌-ℤ◌
ros_time_to_ns-time_of_ns ns = ground arith

-- The latch after a message, at a driver's clock.
abbrev pub latch_after : DriverSafetyState → ℤ → Latch → Latch
latch_after message now l =
    (observe_authority message.estop_active (ros_time_to_ns (some (time_of_ns message.stamp_ns)))
      now l).0

abbrev pub release_of : ℕ → DriverSafetyState
release_of stamp = record { estop_active = false; reason = ""; stamp_ns = stamp }
