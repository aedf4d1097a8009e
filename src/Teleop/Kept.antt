-- ===== src/Teleop/Kept.antt =====
-- Positions and durations of parsed commands on their way through the bridge.
use robot_runtime.Prelude.{arith, false, refl, string_eq, strip, true, ℕ, ◌≡◌, ◌≤◌, lower}
use robot_runtime.Lx.Words.{clamp}
use robot_runtime.Prelude.Int.{int_eq, pos, pos_part, ℤ, negsuc}
use robot_runtime.Teleop.Json.{done}
use robot_runtime.Teleop.Parse.{within_range}
use robot_runtime.Teleop.Ranges.{IsPositive, IsPulse}
use robot_runtime.Teleop.Position.{
  coerce_float, coerce_uint16, float_overflows, normalize_motion_position, resolve_command_duration,
  bus_motion_position,
}

pub small_fits : (n : ℕ) → n ≤ 65535 → float_overflows (pos n) ≡ false
unfolding float_overflows
small_fits n h = ground arith

pub inside_pulse : (n : ℕ) → IsPulse (pos n) → within_range (pos 500) (pos 2500) (pos n) ≡ true
inside_pulse n h = ground arith

-- A pulse goes through the bridge as it is.
pub pulse_is_kept :
    (n : ℤ) → IsPulse n → normalize_motion_position "bus" n "bus_pulse_us" ≡ done (pos_part n)
unfolding normalize_motion_position coerce_float bus_motion_position lower strip
pulse_is_kept (pos n) h = rw (small_fits n (omega arith), inside_pulse n h) refl
pulse_is_kept (negsuc n) h = absurd (omega (arith, h.0))

-- A duration above zero is cut to 16 bits.
pub duration_is_kept :
    (n : ℤ)
    → IsPositive n
    → float_overflows n ≡ false
    → resolve_command_duration n n ≡ done (clamp 1 65535 n)
unfolding resolve_command_duration coerce_uint16 coerce_float clamp
duration_is_kept (pos n) h small = rw small (ground arith)
duration_is_kept (negsuc n) h small = absurd (omega arith)
