-- ===== src/Manager/Stopping.antt =====
-- `_stop_driver_actuators`: the stop of each actuator, with what the drivers answer. The services answer
-- with a message, so an answer is there unless the wait failed.
use robot_runtime.Prelude.{
  Bool, List, Option, String, [], false, if◌then◌else◌, lower, nat_eq, none, not, some, string_eq,
  strip, true, ◌==◌, ◌||◌, ◌∷◌,
}
use robot_runtime.Manager.Handlers.{Waited, answered, raised, timed_out}
use robot_runtime.Manager.Service.{DriverAnswer, stop_command_for_protocol}
use robot_runtime.Prelude.Int.{int_eq}

pub record ProtocolAnswer : Type 0 where
  pub success : Bool
  pub protocol : String

-- One actuator in `_stop_driver_actuators`: whether both services are ready, the position service's
-- answer, whether the operation is still active when the stop is to be sent, and the stop's answer.
pub record Contact : Type 0 where
  pub ready : Bool
  pub read : Waited ProtocolAnswer
  pub still_active : Bool
  pub stop : Waited DriverAnswer

-- The driver's answer, whether a wait timed out, and the command that was sent.
pub record Stopped : Type 0 where
  pub response : Option DriverAnswer
  pub late : Bool
  pub command : Option String

unfoldable pub stop_response : String → Waited DriverAnswer → Stopped
stop_response command (raised _) = record { response = none; late = false; command = some command }
stop_response command timed_out = record { response = none; late = true; command = some command }
stop_response command (answered a) = record {
  response = some a;
  late = false;
  command = some command;
}

abbrev pub not_stopped : Bool → Stopped
not_stopped late = record { response = none; late = late; command = none }

unfoldable pub stop_with : Waited ProtocolAnswer → Contact → Stopped
unfolding stop_response
stop_with (raised _) c = not_stopped false
stop_with timed_out c = not_stopped true
stop_with (answered a) c =
    let protocol = lower (strip a.protocol) in
    if not a.success || not (protocol == "lx" || protocol == "zl")
    then not_stopped false
    else if not c.still_active
    then not_stopped false
    else stop_response (stop_command_for_protocol protocol) c.stop

unfoldable pub stop_one : Contact → Stopped
unfolding stop_with
stop_one c = if not c.ready then not_stopped false else stop_with c.read c

unfoldable pub stop_driver_actuators : List Contact → List (Option DriverAnswer) × Bool
unfolding stop_one
stop_driver_actuators [] = ([], false)
stop_driver_actuators (c ∷ cs) =
    let rest = stop_driver_actuators cs in
    ((stop_one c).response ∷ rest.0, (stop_one c).late || rest.1)
