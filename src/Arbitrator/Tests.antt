-- ===== src/Arbitrator/Tests.antt =====
-- The arbitrator's theorems at concrete calls.
use robot_runtime.Prelude.{
  List, [], arith, contains, false, length, nat_eq, refl, string_eq, strip, lower, true, ◌++◌, ◌<◌,
  ◌↔◌, ◌∷◌, ◌≡◌,
}
use robot_runtime.Arbitrator.Admission.{MayCommand, receive_iff, validate-receive}
use robot_runtime.Arbitrator.Command.{receive}
use robot_runtime.Arbitrator.Estop.{set_estop, snapshot, stop_all, stop_task}
use robot_runtime.Arbitrator.Replies.{accept_task_control}
use robot_runtime.Arbitrator.Tombstones.{remember, remember_task_identity}
use robot_runtime.Arbitrator.Events.{
  Event, command, estop_set, step, run, run-Inv, task_control, teleop_control, ticked,
}
use robot_runtime.Arbitrator.Exclusion.{IsExclusive, run-IsExclusive}
use robot_runtime.Arbitrator.Invariant.{new-Inv}
use robot_runtime.Arbitrator.Refresh.{
  clear_expired_task_control, clear_task_control, clear_teleop_control, expired,
  is_task_control_active, refresh_mode, within,
}
use robot_runtime.Arbitrator.State.{Arbitrator, Config, Identity, identity_eq, motion, new, task}
use robot_runtime.Arbitrator.Restart.{ended_task_is_not_restarted, endings}
use robot_runtime.Arbitrator.Settled.{has_ended}
use robot_runtime.Arbitrator.Stopped.{IsAccepted, stop_blocks}
use robot_runtime.Arbitrator.TaskControl.{
  decide_task_control, is_task_control_action, missing_identity_reason, log_task_request,
  start_task, touch_task, grant_task, receive_task_control, strip_identity, validate_task_operation,
}

abbrev test_config : Config
test_config = record {
  teleop_timeout = 300;
  motion_timeout = 100;
  task_timeout = 1000;
  tombstone_limit = 2;
  lease_id_factory = λ n. "teleop-lease";
  task_lease_id_factory = λ n. "task-lease";
}

abbrev walk : Identity
walk = record { task_id = "walk"; trace_id = "t1"; session_id = "s1" }

abbrev wave : Identity
wave = record { task_id = "wave"; trace_id = "t2"; session_id = "s1" }

abbrev started : List Event
started = teleop_control "claim" 1 "pilot" "" ∷ task_control "start" 2 walk "" ∷ []

abbrev walking : Arbitrator
walking = run started (new test_config)

receive_iff_example :
    ((receive task 5 "walk" "task-lease" walking).0.accepted ≡ true)
    ↔ MayCommand task 5 "walk" "task-lease" walking
receive_iff_example = receive_iff task 5 "walk" "task-lease" walking

run-IsExclusive_example : IsExclusive (snapshot 6 (run started (new test_config)))
run-IsExclusive_example = run-IsExclusive test_config started 6

stop_blocks_example : ¬ IsAccepted (command motion 9 "" "") (
    run
      (task_control "start" 8 walk "" ∷ ticked 9 ∷ [])
      (set_estop true 7 "fall" (run started (new test_config))))
stop_blocks_example =
    stop_blocks test_config started 7 "fall" (task_control "start" 8 walk "" ∷ ticked 9 ∷ [])
      (command motion 9 "" "") (λ h. h, (λ h. h, tt))

validate-receive_example :
    ((validate_task_operation 5 walk "task-lease" walking).0.accepted ≡ true) ↔ (
      ((receive task 5 "walk" "task-lease" walking).0.accepted ≡ true)
      × (strip "t1" ≡ walking.task.identity.trace_id)
      × (strip "s1" ≡ walking.task.identity.session_id))
validate-receive_example =
    validate-receive 5 walk "task-lease" walking (run-Inv started (new-Inv test_config))

-- "walk" is started, stopped by an emergency stop, and the stop is lifted.
abbrev walk_started : List Event
walk_started = task_control "start" 2 walk "" ∷ []

abbrev fall : Event
fall = estop_set true 3 "fall"

abbrev got_up : List Event
got_up = estop_set false 4 "" ∷ []

abbrev strolling : Arbitrator
strolling = run walk_started (new test_config)

walk_ended : has_ended strolling (step fall strolling) ≡ true
unfolding run step receive_task_control decide_task_control is_task_control_action lower strip
    missing_identity_reason strip_identity log_task_request refresh_mode start_task
    is_task_control_active within touch_task grant_task accept_task_control clear_teleop_control new
    set_estop clear_expired_task_control expired stop_all stop_task remember_task_identity remember
    clear_task_control contains
walk_ended = refl

walk_held : strip_identity walk ≡ strolling.task.identity
unfolding run step receive_task_control decide_task_control is_task_control_action lower strip
    missing_identity_reason strip_identity log_task_request refresh_mode start_task
    is_task_control_active within touch_task grant_task accept_task_control clear_teleop_control new
    set_estop clear_expired_task_control expired stop_all stop_task remember_task_identity remember
    clear_task_control contains
walk_held = refl

few_ended : length (endings (got_up ++ (ticked 9 ∷ [])) (step fall strolling)) < 2
unfolding endings run step receive_task_control decide_task_control is_task_control_action lower
    strip missing_identity_reason strip_identity log_task_request refresh_mode start_task
    is_task_control_active within touch_task grant_task accept_task_control clear_teleop_control new
    set_estop clear_expired_task_control expired stop_all stop_task remember_task_identity remember
    clear_task_control contains
few_ended = omega arith

ended_task_is_not_restarted_example :
    (receive_task_control "start" 9 walk "" (run got_up (step fall strolling))).0.accepted ≡ false
ended_task_is_not_restarted_example =
    ended_task_is_not_restarted test_config walk_started got_up fall walk 9 "" walk_ended walk_held
      few_ended
