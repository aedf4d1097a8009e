-- ===== src/Arbitrator/Events.antt =====
-- Sequences of calls of the arbitrator. The execution manager calls it from one executor, one call
-- after the other, with arguments that come from outside: any list of calls may happen.
--
-- `snapshot` leaves the state that `tick` leaves. A call with an unknown source raises and changes
-- nothing, so a command is a call with one of the three sources.
use robot_runtime.Prelude.{Bool, List, String, [], ℕ, ◌∷◌}
use robot_runtime.Arbitrator.Command.{receive, reject_outside}
use robot_runtime.Arbitrator.Estop.{set_estop, tick}
use robot_runtime.Arbitrator.Invariant.{Inv}
use robot_runtime.Arbitrator.Preserved.Command.{receive-Inv, reject_outside-Inv}
use robot_runtime.Arbitrator.Preserved.TaskControl.{
  receive_task_control-Inv, reject_task_control_outside-Inv, validate_task_operation-Inv,
}
use robot_runtime.Arbitrator.Preserved.TeleopControl.{
  receive_teleop_control-Inv, set_estop-Inv, tick-Inv,
}
use robot_runtime.Arbitrator.State.{Arbitrator, Identity, Source}
use robot_runtime.Arbitrator.TaskControl.{
  receive_task_control, reject_task_control_outside, validate_task_operation,
}
use robot_runtime.Arbitrator.TeleopControl.{receive_teleop_control}

pub data Event : Type 0 where
  command : Source → ℕ → String → String → Event
  outside_reject : Source → ℕ → String → String → Event
  task_control : String → ℕ → Identity → String → Event
  outside_task_reject : String → ℕ → Identity → String → Event
  task_check : ℕ → Identity → String → Event
  teleop_control : String → ℕ → String → String → Event
  estop_set : Bool → ℕ → String → Event
  ticked : ℕ → Event

unfoldable pub step : Event → Arbitrator → Arbitrator
step (command source now requester_id lease_id) s = (receive source now requester_id lease_id s).1
step (outside_reject source now requester_id reason) s =
    (reject_outside source now requester_id reason s).1
step (task_control action now i lease_id) s = (receive_task_control action now i lease_id s).1
step (outside_task_reject action now i reason) s =
    (reject_task_control_outside action now i reason s).1
step (task_check now i lease_id) s = (validate_task_operation now i lease_id s).1
step (teleop_control action now requester_id lease_id) s =
    (receive_teleop_control action now requester_id lease_id s).1
step (estop_set active now reason) s = set_estop active now reason s
step (ticked now) s = tick now s

unfoldable pub run : List Event → Arbitrator → Arbitrator
run [] s = s
run (e ∷ es) s = run es (step e s)

pub step-Inv : (e : Event) {s : Arbitrator} → Inv s → Inv (step e s)
unfolding step
step-Inv (command source now r l) h = (receive-Inv source now r l h).inv
step-Inv (outside_reject source now r reason) h = (reject_outside-Inv source now r reason h).inv
step-Inv (task_control action now i l) h = (receive_task_control-Inv action now i l h).inv
step-Inv (outside_task_reject action now i reason) h =
    (reject_task_control_outside-Inv action now i reason h).inv
step-Inv (task_check now i l) h = (validate_task_operation-Inv now i l h).inv
step-Inv (teleop_control action now r l) h = (receive_teleop_control-Inv action now r l h).inv
step-Inv (estop_set active now reason) h = set_estop-Inv active now reason h
step-Inv (ticked now) h = tick-Inv now h

pub run-Inv : (es : List Event) {s : Arbitrator} → Inv s → Inv (run es s)
unfolding run
run-Inv [] h = h
run-Inv (e ∷ es) h = run-Inv es (step-Inv e h)
