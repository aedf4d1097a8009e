-- ===== src/Motion/Tests.antt =====
-- The theorems on motion goals at concrete goals.
use robot_runtime.Prelude.{All, List, [], false, length, refl, take, true, ℕ, ◌↔◌, ◌∷◌, ◌≡◌, ◌≤◌}
use robot_runtime.Motion.Admitted.{normalize_motion_goal_iff}
use robot_runtime.Motion.Checked.{IsGoal}
use robot_runtime.Motion.Feedback.{
  ActuatorObservation, Tracker, evaluate_target_feedback, new_tracker, update,
}
use robot_runtime.Motion.Float.{finite, whole}
use robot_runtime.Motion.Goal.{MotionGoalSpec, normalize_motion_goal, normalized_ids, ok}
use robot_runtime.Motion.Reached.{IsReached, IsReached-All_iff}
use robot_runtime.Motion.TaskState.{TaskState}
use robot_runtime.Motion.Tracked.{IsHit, stable_iff, tracked}
use robot_runtime.Prelude.Int.{negsuc, pos, pos_part, ℤ, ◌<ℤ◌}

abbrev goal : MotionGoalSpec
goal = record {
  task_id = " walk ";
  trace_id = "t1";
  session_id = "s1";
  motion_type = "Ankle_Pose";
  target_group = " LEFT_ANKLE";
  roll_deg = finite (negsuc 4);
  pitch_deg = finite (pos 0);
  yaw_deg = finite (pos (whole 30));
  duration_ms = pos 200;
  position_tolerance = pos 8;
  execution_timeout_sec = finite (pos (whole 2));
}

normalize_motion_goal_iff_example :
    (normalize_motion_goal goal ≡ ok (normalized_ids goal))
    ↔ ((normalized_ids goal ≡ normalized_ids goal) × IsGoal (normalized_ids goal))
normalize_motion_goal_iff_example = normalize_motion_goal_iff goal (normalized_ids goal)

abbrev seen : ActuatorObservation
seen = record {
  position_raw = pos 505;
  status = "ok";
  reason = "";
  recoverable = false;
  observed_monotonic = 12;
}

abbrev broken : ActuatorObservation
broken = record seen { status = "error" }

abbrev targets : List (ℕ × ℤ)
targets = (1, pos 500) ∷ (2, pos 510) ∷ []

abbrev observations : List (ℕ × ActuatorObservation)
observations = (2, broken) ∷ (1, seen) ∷ []

IsReached-All_iff_example :
    ((evaluate_target_feedback targets observations 10 8).0 ≡ length targets)
    ↔ All (IsReached observations 10 8) targets
IsReached-All_iff_example = IsReached-All_iff targets observations 10 8

abbrev tracker : Tracker
tracker = record { required_samples = 2; consecutive_samples = 0 }

abbrev history : List (ℕ × ℕ)
history = (2, 2) ∷ (1, 2) ∷ []

stable_iff_example :
    (pos 0 <ℤ pos 2)
    × (((update (2, 2) (tracked history tracker)).1 ≡ true) ↔ (
        (pos_part (pos 2) ≤ length ((2, 2) ∷ history))
        × All IsHit (take (pos_part (pos 2)) ((2, 2) ∷ history))))
unfolding new_tracker
stable_iff_example = stable_iff (pos 2) tracker (2, 2) history refl

abbrev running : TaskState
running = record {
  task_id = "walk";
  trace_id = "t1";
  session_id = "s1";
  lease_id = "lease";
  active = true;
  status = "active";
  last_action = "start";
  last_task_id = "walk";
  last_trace_id = "t1";
  last_session_id = "s1";
  last_action_accepted = true;
}
