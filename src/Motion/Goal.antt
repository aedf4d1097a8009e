-- ===== src/Motion/Goal.antt =====
-- `MotionGoalSpec` and `normalize_motion_goal`: an error is the reason that the code raises with.
use robot_runtime.Prelude.{
  Bool, List, Option, String, [], if◌then◌else◌, is_empty, leb, lower, nat_eq, none, not, some,
  string_eq, strip, ◌&&◌, ◌+◌, ◌==◌, ◌||◌, ◌∷◌,
}
use robot_runtime.Motion.Float.{Float, finite, is_finite, one_tenth, whole}
use robot_runtime.Prelude.Int.{leb_ℤ, neg_part, pos, pos_part, ℤ}

pub record MotionGoalSpec : Type 0 where
  pub task_id : String
  pub trace_id : String
  pub session_id : String
  pub motion_type : String
  pub target_group : String
  pub roll_deg : Float
  pub pitch_deg : Float
  pub yaw_deg : Float
  pub duration_ms : ℤ
  pub position_tolerance : ℤ
  pub execution_timeout_sec : Float

pub data Result (A : Type 0) : Type 0 where
  error : String → Result A
  ok : A → Result A

-- The request has the fields of the specification, not yet in their normal form.
unfoldable pub normalized_ids : MotionGoalSpec → MotionGoalSpec
normalized_ids request = record request {
  task_id = strip request.task_id;
  trace_id = strip request.trace_id;
  session_id = strip request.session_id;
  motion_type = lower (strip request.motion_type);
  target_group = lower (strip request.target_group);
}

-- `abs(angle) > MAX_ABS_ANGLE_DEG`, for a finite angle
unfoldable pub in_workspace : Float → Bool
in_workspace (finite n) = leb (pos_part n + neg_part n) (whole 30)
in_workspace _ = Bool.false

-- The two tests on an angle: `none` when it passes.
unfoldable pub angle_error : String → String → Float → Option String
unfolding in_workspace is_finite
angle_error not_finite out_of_workspace angle =
    if not (is_finite angle)
    then some not_finite
    else if not (in_workspace angle)
    then some out_of_workspace
    else none

unfoldable pub timeout_in_range : Float → Bool
timeout_in_range (finite n) = leb_ℤ (pos one_tenth) n && leb_ℤ n (pos (whole 120))
timeout_in_range _ = Bool.false

abbrev pub supported_motion_type : String
supported_motion_type = "ankle_pose"

unfoldable pub is_supported_group : String → Bool
is_supported_group g = g == "left_ankle" || g == "right_ankle"

-- The first reason of the checks in the order of the code.
unfoldable pub first_reason : List (Option String) → Option String
first_reason [] = none
first_reason (none ∷ rest) = first_reason rest
first_reason (some reason ∷ rest) = some reason

-- `if failed: raise MotionGoalValidationError(reason)`
unfoldable pub fails : Bool → String → Option String
fails failed reason = if failed then some reason else none

unfoldable pub goal_checks : MotionGoalSpec → List (Option String)
goal_checks g =
    fails (is_empty g.task_id) "task_id_required"
    ∷ fails (is_empty g.trace_id) "trace_id_required"
    ∷ fails (is_empty g.session_id) "session_id_required"
    ∷ fails (not (g.motion_type == supported_motion_type)) "unsupported_motion_type"
    ∷ fails (not (is_supported_group g.target_group)) "unsupported_target_group"
    ∷ angle_error "roll_not_finite" "roll_out_of_workspace" g.roll_deg
    ∷ angle_error "pitch_not_finite" "pitch_out_of_workspace" g.pitch_deg
    ∷ angle_error "yaw_not_finite" "yaw_out_of_workspace" g.yaw_deg
    ∷ fails (leb_ℤ g.duration_ms (pos 0)) "duration_ms_required"
    ∷ fails (not (leb_ℤ (pos 1) g.position_tolerance && leb_ℤ g.position_tolerance (pos 500)))
        "position_tolerance_out_of_range"
    ∷ fails (not (is_finite g.execution_timeout_sec)) "execution_timeout_not_finite"
    ∷ fails (not (timeout_in_range g.execution_timeout_sec)) "execution_timeout_out_of_range"
    ∷ []

-- The goal, unless a check has failed.
unfoldable pub unless_raised : Option String → MotionGoalSpec → Result MotionGoalSpec
unless_raised none g = ok g
unless_raised (some reason) g = error reason

unfoldable pub normalize_motion_goal : MotionGoalSpec → Result MotionGoalSpec
normalize_motion_goal request =
    unless_raised (first_reason (goal_checks (normalized_ids request))) (normalized_ids request)
