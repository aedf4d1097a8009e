-- ===== src/Task/Contract.antt =====
-- `validate_task_goal`, the mappings and `rejected_result`. A goal is a message, so it has all its
-- fields, and the defaults of `getattr` are not used. A refusal is its reason, `none` an acceptance.
use robot_runtime.Prelude.{
  Bool, List, Option, String, [], false, is_empty, nat_eq, none, not, some, string_eq, strip, true,
  ◌&&◌, ◌==◌, ◌∷◌,
}
use robot_runtime.Motion.Float.{Float, is_finite}
use robot_runtime.Motion.Goal.{
  MotionGoalSpec, angle_error, fails, first_reason, is_supported_group, timeout_in_range,
}
use robot_runtime.Prelude.Int.{leb_ℤ, pos, ℤ}

pub record TaskGoal : Type 0 where
  pub task_id : String
  pub trace_id : String
  pub session_id : String
  pub task_type : String
  pub target_group : String
  pub roll_deg : Float
  pub pitch_deg : Float
  pub yaw_deg : Float
  pub duration_ms : ℤ
  pub position_tolerance : ℤ
  pub execution_timeout_sec : Float

abbrev pub supported_task_type : String
supported_task_type = "ankle_pose"

unfoldable pub task_checks : TaskGoal → List (Option String)
task_checks g =
    fails (is_empty (strip g.task_id)) "task_id_required"
    ∷ fails (is_empty (strip g.trace_id)) "trace_id_required"
    ∷ fails (is_empty (strip g.session_id)) "session_id_required"
    ∷ fails (not (g.task_type == supported_task_type)) "unsupported_task_type"
    ∷ fails (not (is_supported_group g.target_group)) "unsupported_target_group"
    ∷ angle_error "roll_deg_not_finite" "roll_deg_out_of_range" g.roll_deg
    ∷ angle_error "pitch_deg_not_finite" "pitch_deg_out_of_range" g.pitch_deg
    ∷ angle_error "yaw_deg_not_finite" "yaw_deg_out_of_range" g.yaw_deg
    ∷ fails (leb_ℤ g.duration_ms (pos 0)) "duration_ms_out_of_range"
    ∷ fails (not (leb_ℤ (pos 1) g.position_tolerance && leb_ℤ g.position_tolerance (pos 500)))
        "position_tolerance_out_of_range"
    ∷ fails (not (is_finite g.execution_timeout_sec)) "execution_timeout_sec_not_finite"
    ∷ fails (not (timeout_in_range g.execution_timeout_sec)) "execution_timeout_sec_out_of_range"
    ∷ []

unfoldable pub validate_task_goal : TaskGoal → Option String
validate_task_goal g = first_reason (task_checks g)

-- `map_task_goal`: the request of the motion action.
unfoldable pub map_task_goal : TaskGoal → MotionGoalSpec
map_task_goal g = record {
  task_id = g.task_id;
  trace_id = g.trace_id;
  session_id = g.session_id;
  motion_type = g.task_type;
  target_group = g.target_group;
  roll_deg = g.roll_deg;
  pitch_deg = g.pitch_deg;
  yaw_deg = g.yaw_deg;
  duration_ms = g.duration_ms;
  position_tolerance = g.position_tolerance;
  execution_timeout_sec = g.execution_timeout_sec;
}

-- The fields that both results have: `map_motion_result` copies each to its own name.
pub record TaskResult : Type 0 where
  pub success : Bool
  pub task_id : String
  pub trace_id : String
  pub session_id : String
  pub status : String
  pub reason : String
  pub recoverable : Bool
  pub target_reached : Bool
  pub admission_released : Bool
  pub stop_requested : Bool
  pub stop_command_sent : Bool
  pub stop_confirmed : Bool

-- The three identifiers of the request, empty where there is none.
unfoldable pub rejected_result : String → Option TaskGoal → TaskResult
rejected_result reason request =
    let id_of : (TaskGoal → String) → String = λ f. elim request [ none ↦ "" | some g ↦ f g ] in
    record {
      success = false;
      task_id = id_of (λ g. g.task_id);
      trace_id = id_of (λ g. g.trace_id);
      session_id = id_of (λ g. g.session_id);
      status = "rejected";
      reason = reason;
      recoverable = true;
      target_reached = false;
      admission_released = true;
      stop_requested = false;
      stop_command_sent = false;
      stop_confirmed = false;
    }
