-- ===== src/Teleop/Position.antt =====
-- bridge_node.py: the position and the duration of a motion command.
use robot_runtime.Prelude.{
  Bool, String, if◌then◌else◌, is_empty, lower, not, string_eq, strip, ℕ, ◌*◌, ◌+◌, ◌-◌, ◌==◌, ◌^◌,
  ◌||◌, leb, ltb,
}
use robot_runtime.Driver.Convert.{round_div}
use robot_runtime.Lx.Words.{clamp}
use robot_runtime.Prelude.Int.{int_eq, pos, pos_part, neg_part, ℤ}
use robot_runtime.Teleop.Json.{Run, done, overflowed, refused, ◌>>=◌}
use robot_runtime.Teleop.Parse.{within_range}

unfoldable pub motion_value_encoding : String → String
motion_value_encoding servo_type =
    let normalized_type = lower (strip servo_type) in
    if normalized_type == "bus"
    then "bus_pulse_us"
    else if normalized_type == "pca"
    then "pca_tick"
    else ""

-- `float(value)` of an integer: the largest double and half a place more are out of its range.
unfoldable pub float_overflows : ℤ → Bool
float_overflows n = leb (2 ^ 1024 - 2 ^ 970) (pos_part n + neg_part n)

unfoldable pub coerce_float : ℤ → Run ℤ
unfolding float_overflows
coerce_float n = if float_overflows n then overflowed else done n

-- A float that stands for an integer is rounded to it, or is out of the range on the same side.
unfoldable pub coerce_uint16 : ℤ → Run ℕ
unfolding coerce_float clamp
coerce_uint16 n = coerce_float n >>= λ val. done (clamp 0 65535 val)

unfoldable pub resolve_command_duration : ℤ → ℤ → Run ℕ
unfolding coerce_uint16
resolve_command_duration value fallback = coerce_uint16 value >>= λ primary.
    if ltb 0 primary
    then done primary
    else coerce_uint16 fallback >>= λ secondary. done (if ltb 0 secondary then secondary else 100)

unfoldable pub map_angle_to_pulse : ℕ → ℕ
unfolding round_div
map_angle_to_pulse angle = round_div (500 * 180 + angle * 2000) 180

unfoldable pub bus_motion_position : ℤ → String → Run ℕ
unfolding map_angle_to_pulse
bus_motion_position position encoding =
    if encoding == "bus_pulse_us"
    then (if within_range (pos 500) (pos 2500) position then done (pos_part position) else refused)
    else if not (is_empty encoding)
    then refused
    else if within_range (pos 500) (pos 2500) position
    then done (pos_part position)
    else if within_range (pos 0) (pos 180) position
    then done (map_angle_to_pulse (pos_part position))
    else refused

unfoldable pub normalize_motion_position : String → ℤ → String → Run ℕ
unfolding bus_motion_position
normalize_motion_position servo_type raw_position value_encoding =
    let normalized_type = lower (strip servo_type) in
    let encoding = lower (strip value_encoding) in
    coerce_float raw_position >>= λ position.
    if normalized_type == "bus"
    then bus_motion_position position encoding
    else if normalized_type == "pca"
    then (if is_empty encoding || encoding == "pca_tick" then coerce_uint16 position else refused)
    else refused
