-- ===== src/Manager/Handlers.antt =====
-- The handlers that do not wait: commands, teleop and task control, the state of a driver, and the parts
-- of the read service before and after its wait. The `_publish_state` that ends them is a step of its
-- own. The node subscribes `_handle_command` with the three sources, so it takes one of them here.
use robot_runtime.Prelude.{
  Bool, Option, String, false, if◌then◌else◌, lower, nat_eq, none, not, some, string_eq, strip,
  true, ℕ, ◌&&◌, ◌==◌,
}
use robot_runtime.Arbitrator.Command.{receive, reject_outside}
use robot_runtime.Arbitrator.Replies.{Reply}
use robot_runtime.Arbitrator.State.{Identity, Source, identity_eq}
use robot_runtime.Arbitrator.TaskControl.{
  receive_task_control, reject_task_control_outside, validate_task_operation,
}
use robot_runtime.Arbitrator.TeleopControl.{receive_teleop_control}
use robot_runtime.Driver.Move.{ServoCommand}
use robot_runtime.Manager.Commands.{MotionCommand, motion_command_to_setpoint, to_servo_command}
use robot_runtime.Manager.Feedback.{ActuatorFeedback, DriverState, servo_state_to_feedback}
use robot_runtime.Manager.Service.{DriverAnswer, ReadFields, read_response_fields}
use robot_runtime.Manager.State.{Manager, add_id, has_operations}
use robot_runtime.Prelude.Int.{int_eq}
use robot_runtime.SafetyLatch.Latch.{Time}
use Prim.Native.String.{◌++◌}

unfoldable pub arbitrate_command : Source → ℕ → MotionCommand → Manager → Reply
arbitrate_command source now msg m =
    let requester_id = strip msg.requester_id in
    if has_operations m
    then reject_outside source now requester_id "stop_operation_pending" m.arbitrator
    else receive source now requester_id (strip msg.lease_id) m.arbitrator

unfoldable pub know_bus_actuator : String → ℕ → Manager → Manager
know_bus_actuator actuator_type id m =
    if actuator_type == "bus"
    then record m { known_bus_actuator_ids = add_id id m.known_bus_actuator_ids }
    else m

-- `stamp` is the node's clock.
unfoldable pub handle_command :
    Source → ℕ → Time → MotionCommand → Manager → Manager × Option ServoCommand
unfolding know_bus_actuator
handle_command source now stamp msg m =
    let setpoint = motion_command_to_setpoint msg in
    let (result, arbitrator) = arbitrate_command source now msg m in
    let next = record m { arbitrator = arbitrator } in
    if result.accepted
    then (
      know_bus_actuator setpoint.actuator_type setpoint.actuator_id next,
      some (to_servo_command setpoint (some stamp)),
    )
    else (next, none)

unfoldable pub handle_teleop_control : String → ℕ → String → String → Manager → Manager
handle_teleop_control action now requester_id lease_id m = record m {
  arbitrator =
      (receive_teleop_control (lower (strip action)) now (strip requester_id) (strip lease_id)
        m.arbitrator).1;
}

abbrev stripped_identity : Identity → Identity
stripped_identity i = record {
  task_id = strip i.task_id;
  trace_id = strip i.trace_id;
  session_id = strip i.session_id;
}

unfoldable pub arbitrate_task_control : String → ℕ → Identity → String → Manager → Reply
arbitrate_task_control action now identity lease_id m =
    let normalized = lower (strip action) in
    let stripped = stripped_identity identity in
    if normalized == "start" && has_operations m
    then reject_task_control_outside normalized now stripped "task_stop_pending" m.arbitrator
    else receive_task_control normalized now stripped (strip lease_id) m.arbitrator

unfoldable pub handle_task_control : String → ℕ → Identity → String → Manager → Manager
handle_task_control action now identity lease_id m = record m {
  arbitrator = (arbitrate_task_control action now identity lease_id m).1;
}

unfoldable pub handle_driver_state : DriverState → Manager → Manager × ActuatorFeedback
unfolding know_bus_actuator
handle_driver_state msg m =
    let feedback = servo_state_to_feedback msg in
    (know_bus_actuator feedback.actuator_type feedback.actuator_id m, feedback)

-- What a wait for a driver brings: an exception, the timeout, or the answer.
pub data Waited (A : Type 0) : Type 0 where
  raised : String → Waited A
  timed_out : Waited A
  answered : A → Waited A

pub record TaskRequest : Type 0 where
  pub identity : Identity
  pub lease_id : String
  pub actuator_type : String

abbrev read_refused : String → Bool → ReadFields
read_refused reason recoverable = record (read_response_fields none) {
  reason = reason;
  recoverable = recoverable;
}

-- Up to the wait; `none` where the driver is asked. `ready` is `service_is_ready`.
unfoldable pub begin_read : ℕ → Bool → TaskRequest → Manager → Manager × Option ReadFields
unfolding read_response_fields
begin_read now ready request m =
    let (validation, arbitrator) =
      validate_task_operation now request.identity request.lease_id m.arbitrator in
    let next = record m { arbitrator = arbitrator } in
    if not validation.accepted
    then (next, some (read_refused validation.reason true))
    else if not (lower (strip request.actuator_type) == "bus")
    then (next, some (read_refused "unsupported_actuator_type" false))
    else if not ready
    then (next, some (read_response_fields none))
    else (next, none)

unfoldable pub finish_read : Waited (Option DriverAnswer) → ReadFields
unfolding read_response_fields
finish_read (raised text) = read_refused ("driver_read_exception:" ++ text) true
finish_read timed_out = read_refused "driver_read_timeout" true
finish_read (answered response) = read_response_fields response
