-- ===== src/Manager/Tests.antt =====
-- The node's theorems at concrete runs.
use robot_runtime.Arbitrator.Command.{receive, decide_command, rejection_reason, accept_command}
use robot_runtime.Manager.Service.{stop_summary}
use robot_runtime.Manager.Feedback.{servo_state_to_feedback}
use robot_runtime.Prelude.{
  [], contains, false, nat_eq, none, refl, some, strip, sym, true, ◌∷◌, ◌≡◌, lower,
}
use robot_runtime.Arbitrator.Admission.{MayCommand}
use robot_runtime.Arbitrator.Estop.{set_estop, stop_all, tick}
use robot_runtime.Arbitrator.Refresh.{refresh_mode, within}
use robot_runtime.Arbitrator.State.{Config, configure, motion, new}
use robot_runtime.Manager.Commands.{MotionCommand, to_servo_command, motion_command_to_setpoint}
use robot_runtime.Manager.Handlers.{
  answered, handle_command, handle_driver_state, timed_out, arbitrate_command,
}
use robot_runtime.Manager.Held.{commands_pass_gates, fault_is_final}
use robot_runtime.Manager.Operations.{
  Env, Point, advance, announced, announcing, fault_announcing, awaiting_lift, begin_estop,
  begin_lift, lifting, stopping,
}
use robot_runtime.Manager.Stopping.{stop_driver_actuators}
use robot_runtime.Manager.Owners.{owner}
use robot_runtime.Manager.State.{
  new_manager, next_driver_safety_stamp, register_stop_operation, add_id,
}
use robot_runtime.Manager.System.{
  Picks, Reaches, Step, System, after, at_start, driver_state, estop, estop_pressed, group_resumed,
  resume_group, here, lift_asked, new_system, resumed,
}
use robot_runtime.Prelude.Int.{pos}
use robot_runtime.SafetyLatch.Latch.{Latch, Time}
use mathlib.Core.Path.{subst}

abbrev config : Config
config = configure (pos 800) (pos 500) (pos 5000) (pos 64) (λ n. "lease") (λ n. "task-lease")

abbrev env : Env
env = record { now = 20; now_ns = 20; contacts = []; service_ready = true; release = answered true }

abbrev start : System
start = new_system config 5

start_idle : start.group_task ≡ none
unfolding new_system
start_idle = refl

-- A stop is pressed, stamped and announced, its release asked for and requested from the drivers.
abbrev pressed : System
pressed = estop_pressed 10 start

abbrev stamped : System
stamped = group_resumed [] (announcing none "estop" []) env pressed

abbrev posted : System
posted = group_resumed [] (announced none "estop" [] 20) env stamped

abbrev asked : System
asked = lift_asked 30 posted

abbrev under_way : System
under_way = group_resumed [] (lifting 1) env asked

-- A system that waits for one coroutine, that of the default group, with it picked.
abbrev IsOnly : Point → System → Type 0
IsOnly point s = (s.tasks ≡ point ∷ []) × (s.group_task ≡ some point)

only : (point : Point) (s : System) → s.tasks ≡ point ∷ [] → Picks point s.tasks []
only point s e = subst (λ tasks. Picks point tasks []) (sym e) (here [])

moved :
    (point : Point) (step_env : Env) (s : System)
    → IsOnly point s
    → Step s (group_resumed [] point step_env s)
moved point step_env s h = resume_group s point [] step_env (only point s h.0) h.1

under_way_tasks : under_way.tasks ≡ awaiting_lift 1 21 ∷ []
unfolding group_resumed resumed advance next_driver_safety_stamp lift_asked begin_lift tick
    refresh_mode estop_pressed begin_estop new_system new_manager set_estop stop_all within new
    register_stop_operation
under_way_tasks = refl

-- A stop of the service takes its stamp while the release of an emergency stop is under way.
abbrev closed : Latch
closed = record { latched = true; fence_ns = pos 10; last_authority_ns = pos 10 }

-- A stop whose driver cannot be reached.
abbrev lost : Env
lost = record {
  now = 60;
  now_ns = 60;
  contacts = record { ready = false; read = timed_out; still_active = true; stop = timed_out } ∷ [];
  service_ready = true;
  release = answered true;
}

abbrev known : System
known = record start {
  manager =
      (handle_driver_state
        (record { servo_type = "bus"; servo_id = 21; position = 1500; error_code = 0 })
        start.manager).0;
}

abbrev stopping_one : System
stopping_one = estop_pressed 50 known

abbrev marked : System
marked = group_resumed [] (announcing (some 1) "estop" (21 ∷ [])) lost stopping_one

abbrev told : System
told = group_resumed [] (announced (some 1) "estop" (21 ∷ []) 60) lost marked

abbrev failed : System
failed = group_resumed [] (stopping 1 (21 ∷ [])) lost told

known_idle : known.group_task ≡ none
unfolding new_system
known_idle = refl

stopping_one-IsOnly : IsOnly (announcing (some 1) "estop" (21 ∷ [])) stopping_one
unfolding resumed estop_pressed begin_estop new_system handle_driver_state servo_state_to_feedback
    lower strip add_id next_driver_safety_stamp new_manager register_stop_operation set_estop
    refresh_mode stop_all within new
stopping_one-IsOnly = (refl, refl)

marked-IsOnly : IsOnly (announced (some 1) "estop" (21 ∷ []) 60) marked
unfolding group_resumed resumed advance estop_pressed begin_estop new_system handle_driver_state
    servo_state_to_feedback lower strip add_id next_driver_safety_stamp new_manager
    register_stop_operation set_estop refresh_mode stop_all within new
marked-IsOnly = (refl, refl)

told-IsOnly : IsOnly (stopping 1 (21 ∷ [])) told
unfolding group_resumed resumed advance
told-IsOnly = (refl, refl)

told_reached : Reaches start told
told_reached =
    after marked told
      (after stopping_one marked
        (after known stopping_one
          (after start known at_start (
            driver_state start
              (record { servo_type = "bus"; servo_id = 21; position = 1500; error_code = 0 })
              start_idle))
          (estop known 50 known_idle))
        (moved (announcing (some 1) "estop" (21 ∷ [])) lost stopping_one stopping_one-IsOnly))
      (moved (announced (some 1) "estop" (21 ∷ []) 60) lost marked marked-IsOnly)

abbrev stamp : Time
stamp = record { sec = pos 1; nanosec = 0 }

abbrev step_forward : MotionCommand
step_forward = record {
  servo_type = "bus";
  servo_id = 21;
  position = 1500;
  value_encoding = "";
  duration_ms = 200;
  requester_id = "";
  lease_id = "";
}

told_active : contains 1 told.manager.active_stop_operation_ids ≡ true
unfolding group_resumed resumed advance estop_pressed begin_estop handle_driver_state
    servo_state_to_feedback lower strip add_id new_system new_manager register_stop_operation
    next_driver_safety_stamp contains
told_active = refl

failed_idle : failed.group_task ≡ some (fault_announcing "driver_stop_failed")
unfolding group_resumed resumed advance stop_summary stop_driver_actuators next_driver_safety_stamp
    estop_pressed begin_estop handle_driver_state servo_state_to_feedback lower strip add_id
    new_system new_manager register_stop_operation contains
failed_idle = refl

failed_tasks : failed.tasks ≡ fault_announcing "driver_stop_failed" ∷ []
unfolding group_resumed resumed advance stop_summary stop_driver_actuators next_driver_safety_stamp
    estop_pressed begin_estop handle_driver_state servo_state_to_feedback lower strip add_id
    new_system new_manager register_stop_operation contains
failed_tasks = refl

abbrev noticed : System
noticed = group_resumed [] (fault_announcing "driver_stop_failed") lost failed

fault_is_final_example : (handle_command motion 70 stamp step_forward noticed.manager).1 ≡ none
unfolding group_resumed resumed stop_summary stop_driver_actuators owner
fault_is_final_example =
    fault_is_final config 5 told failed noticed (stopping 1 (21 ∷ [])) 1 lost motion 70 stamp
      step_forward told_reached refl told_active refl
      (moved (stopping 1 (21 ∷ [])) lost told told-IsOnly) refl
      (after failed noticed at_start
        (moved (fault_announcing "driver_stop_failed") lost failed (failed_tasks, failed_idle)))

commands_pass_gates_example :
    (start.manager.active_stop_operation_ids ≡ [])
    × MayCommand motion 70 (strip "") (strip "") start.manager.arbitrator
    × (21 ≡ step_forward.servo_id)
    × (pos 1500 ≡ pos step_forward.position)
    × (some stamp ≡ some stamp)
unfolding handle_command arbitrate_command new_system next_driver_safety_stamp new_manager receive
    decide_command refresh_mode new within rejection_reason accept_command to_servo_command
    motion_command_to_setpoint
commands_pass_gates_example =
    commands_pass_gates motion 70 stamp step_forward start.manager
      (record {
        servo_type = "bus";
        servo_id = 21;
        position = pos 1500;
        speed = pos 200;
        stamp = some stamp;
      })
      refl
