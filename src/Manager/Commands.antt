-- ===== src/Manager/Commands.antt =====
-- command_adapter.py: a motion command becomes a setpoint, and a setpoint the fields of a servo command.
-- `position` and `duration_ms` are `uint16` in the message, so they are whole and not negative, and the
-- conversions by `int` and `str` change nothing.
use robot_runtime.Prelude.{
  Option, String, if◌then◌else◌, is_empty, lower, ltb, nat_eq, not, string_eq, strip, ℕ, ◌==◌,
}
use robot_runtime.Driver.Move.{ServoCommand}
use robot_runtime.Prelude.Int.{int_eq, pos}
use robot_runtime.SafetyLatch.Latch.{Time}

pub record MotionCommand : Type 0 where
  pub servo_type : String
  pub servo_id : ℕ
  pub position : ℕ
  pub value_encoding : String
  pub duration_ms : ℕ
  pub requester_id : String
  pub lease_id : String

pub record ActuatorSetpoint : Type 0 where
  pub actuator_type : String
  pub actuator_id : ℕ
  pub target_raw : ℕ
  pub value_encoding : String
  pub duration_ms : ℕ

-- `_value_encoding_for_type` of feedback_adapter.py is the same function of a normalized type.
unfoldable pub value_encoding_for_type : String → String
value_encoding_for_type actuator_type =
    if actuator_type == "bus"
    then "bus_pulse_us"
    else if actuator_type == "pca"
    then "pca_tick"
    else ""

unfoldable pub resolve_value_encoding : String → String → String
unfolding value_encoding_for_type
resolve_value_encoding actuator_type value_encoding =
    let normalized = lower (strip value_encoding) in
    if not (is_empty normalized)
    then normalized
    else value_encoding_for_type (lower (strip actuator_type))

unfoldable pub resolve_duration_ms : ℕ → ℕ
resolve_duration_ms duration_ms = if ltb 0 duration_ms then duration_ms else 0

unfoldable pub motion_command_to_setpoint : MotionCommand → ActuatorSetpoint
unfolding resolve_value_encoding resolve_duration_ms
motion_command_to_setpoint msg = record {
  actuator_type = msg.servo_type;
  actuator_id = msg.servo_id;
  target_raw = msg.position;
  value_encoding = resolve_value_encoding msg.servo_type msg.value_encoding;
  duration_ms = resolve_duration_ms msg.duration_ms;
}

-- `setpoint_to_servo_fields` and `_to_servo_command`, with the stamp that `_handle_command` puts on it.
unfoldable pub to_servo_command : ActuatorSetpoint → Option Time → ServoCommand
to_servo_command setpoint stamp = record {
  servo_type = setpoint.actuator_type;
  servo_id = setpoint.actuator_id;
  position = pos setpoint.target_raw;
  speed = pos setpoint.duration_ms;
  stamp = stamp;
}
