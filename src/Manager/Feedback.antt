-- ===== src/Manager/Feedback.antt =====
-- feedback_adapter.py: the state of a driver becomes the feedback for the parts above. `load` and
-- `temperature` are passed on and left out; a reason that holds a number is a constructor with it.
use robot_runtime.Prelude.{
  Bool, String, false, if◌then◌else◌, lower, nat_eq, string_eq, strip, ℕ, ◌==◌, ◌||◌,
}
use robot_runtime.Manager.Commands.{value_encoding_for_type}
use robot_runtime.Prelude.Int.{int_eq}

pub record DriverState : Type 0 where
  pub servo_type : String
  pub servo_id : ℕ
  pub position : ℕ
  pub error_code : ℕ

pub data Fault : Type 0 where
  no_fault : Fault
  named : String → Fault
  driver_error_number : ℕ → Fault

pub record ActuatorFeedback : Type 0 where
  pub actuator_type : String
  pub actuator_id : ℕ
  pub position_raw : ℕ
  pub value_encoding : String
  pub status : String
  pub reason : Fault
  pub recoverable : Bool
  pub driver_error_code : ℕ

unfoldable pub fault_of : ℕ → Fault
fault_of error_code =
    if error_code == 1
    then named "communication_error"
    else if error_code == 2
    then named "overload"
    else if error_code == 3
    then named "overheat"
    else if error_code == 4
    then named "driver_error"
    else driver_error_number error_code

unfoldable pub status_from_error_code : ℕ → String × Fault × Bool
unfolding fault_of
status_from_error_code error_code =
    if error_code == 0
    then ("ok", no_fault, false)
    else ("error", fault_of error_code, error_code == 1 || error_code == 2 || error_code == 3)

unfoldable pub servo_state_to_feedback : DriverState → ActuatorFeedback
unfolding status_from_error_code
servo_state_to_feedback msg =
    let actuator_type = lower (strip msg.servo_type) in
    let status = status_from_error_code msg.error_code in
    record {
      actuator_type = actuator_type;
      actuator_id = msg.servo_id;
      position_raw = msg.position;
      value_encoding = value_encoding_for_type actuator_type;
      status = status.0;
      reason = status.1;
      recoverable = status.2;
      driver_error_code = msg.error_code;
    }
