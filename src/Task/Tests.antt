-- ===== src/Task/Tests.antt =====
-- The task contract's theorem at a concrete goal.
use robot_runtime.Prelude.{refl, strip, ◌≡◌}
use robot_runtime.Motion.Float.{finite, is_finite, one_tenth, whole}
use robot_runtime.Motion.Goal.{
  angle_error, fails, first_reason, is_supported_group, normalize_motion_goal, normalized_ids, ok,
  timeout_in_range,
}
use robot_runtime.Prelude.Int.{negsuc, pos}
use robot_runtime.Task.Accepted.{accepted_tasks_are_goals}
use robot_runtime.Task.Contract.{TaskGoal, map_task_goal, task_checks, validate_task_goal}

abbrev task_goal : TaskGoal
task_goal = record {
  task_id = "walk";
  trace_id = "t1";
  session_id = "s1";
  task_type = "ankle_pose";
  target_group = "left_ankle";
  roll_deg = finite (negsuc 4);
  pitch_deg = finite (pos 0);
  yaw_deg = finite (pos (whole 30));
  duration_ms = pos 200;
  position_tolerance = pos 8;
  execution_timeout_sec = finite (pos (whole 2));
}

accepted_tasks_are_goals_example :
    normalize_motion_goal (map_task_goal task_goal) ≡ ok (normalized_ids (map_task_goal task_goal))
unfolding validate_task_goal task_checks first_reason fails strip is_supported_group angle_error
    timeout_in_range whole one_tenth is_finite
accepted_tasks_are_goals_example = accepted_tasks_are_goals task_goal refl
