-- ===== src/Task/Accepted.antt =====
-- Tasks that the bridge accepts, as motion goals of the controller.
use robot_runtime.Prelude.{All, arith, none, refl, strip, ◌≡◌}
use robot_runtime.Motion.Admitted.{ankle_normal, group_normal, normalize_motion_goal_iff}
use robot_runtime.Motion.Checked.{
  IsGoal, IsAngle-iff, empty_iff, fails_iff, first_reason_iff, group_iff, same_iff, IsTimeout-iff,
}
use robot_runtime.Motion.Goal.{normalize_motion_goal, normalized_ids, ok}
use robot_runtime.Task.Contract.{
  TaskGoal, map_task_goal, supported_task_type, task_checks, validate_task_goal,
}

IsGoal-of_task :
    (g : TaskGoal) → All (λ c. c ≡ none) (task_checks g) → IsGoal (normalized_ids (map_task_goal g))
unfolding task_checks normalized_ids map_task_goal
IsGoal-of_task g h =
    let type_is = (same_iff g.task_type supported_task_type).0 ((fails_iff _ _).0 h.1.1.1.0) in
    let group_is = (group_iff g.target_group).0 ((fails_iff _ _).0 h.1.1.1.1.0) in
    let long = (fails_iff _ _).0 h.1.1.1.1.1.1.1.1.0 in
    let tolerance = (fails_iff _ _).0 h.1.1.1.1.1.1.1.1.1.0 in
    record {
      task = (empty_iff (strip g.task_id)).0 ((fails_iff _ _).0 h.0);
      trace = (empty_iff (strip g.trace_id)).0 ((fails_iff _ _).0 h.1.0);
      session = (empty_iff (strip g.session_id)).0 ((fails_iff _ _).0 h.1.1.0);
      ankle = rw type_is ankle_normal;
      group = rw (group_normal g.target_group group_is) group_is;
      roll = (IsAngle-iff _ _ g.roll_deg).0 h.1.1.1.1.1.0;
      pitch = (IsAngle-iff _ _ g.pitch_deg).0 h.1.1.1.1.1.1.0;
      yaw = (IsAngle-iff _ _ g.yaw_deg).0 h.1.1.1.1.1.1.1.0;
      duration = ground arith;
      tolerance_low = ground arith;
      tolerance_high = ground arith;
      timeout =
          (IsTimeout-iff g.execution_timeout_sec).0 (
            (fails_iff _ _).0 h.1.1.1.1.1.1.1.1.1.1.0,
            (fails_iff _ _).0 h.1.1.1.1.1.1.1.1.1.1.1.0,
          );
    }

-- A task goal that the bridge accepts is never refused by the controller's own validation: the motion
-- goal that it is mapped to is normalized, to its stripped and lowered form.
pub accepted_tasks_are_goals :
    (g : TaskGoal)
    → validate_task_goal g ≡ none
    → normalize_motion_goal (map_task_goal g) ≡ ok (normalized_ids (map_task_goal g))
unfolding validate_task_goal
accepted_tasks_are_goals g h =
    (normalize_motion_goal_iff (map_task_goal g) (normalized_ids (map_task_goal g))).1
      (refl, IsGoal-of_task g ((first_reason_iff (task_checks g)).0 h))
