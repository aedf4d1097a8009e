-- ===== src/Motion/Admitted.antt =====
-- Which motion goals are admitted.
use mathlib.Core.Path.{subst}
use robot_runtime.Prelude.{
  String, ap, inl, inr, lower, refl, strip, strip-strip, sym, ◌↔◌, ◌∙◌, ◌≡◌, ◌⊎◌,
}
use robot_runtime.Motion.Goal.{
  MotionGoalSpec, first_reason, goal_checks, normalize_motion_goal, normalized_ids, ok,
  supported_motion_type,
}
use robot_runtime.Motion.Checked.{raised_iff, IsGoal, IsGoal-iff}

-- A request is normalized to a goal exactly when its stripped and lowered form is a goal: three
-- identities that are not empty, the one motion type, one of the two ankles, finite angles of at most
-- 30 degrees, a positive duration, a tolerance of 1 to 500 and a finite timeout of 0.1 to 120 seconds;
-- and the goal is that form.
pub normalize_motion_goal_iff :
    (request g : MotionGoalSpec)
    → (normalize_motion_goal request ≡ ok g) ↔ ((g ≡ normalized_ids request) × IsGoal g)
unfolding normalize_motion_goal
normalize_motion_goal_iff request g =
    let raised =
      raised_iff (first_reason (goal_checks (normalized_ids request))) (normalized_ids request) g in
    (
      λ h.
          let found = raised.0 h in
          (sym found.1, subst IsGoal found.1 ((IsGoal-iff (normalized_ids request)).0 found.0)),
      λ h. raised.1 ((IsGoal-iff (normalized_ids request)).1 (subst IsGoal h.0 h.1), sym h.0),
    )

pub ankle_normal : lower (strip supported_motion_type) ≡ supported_motion_type
unfolding lower strip
ankle_normal = refl

pub group_normal : (s : String) → (s ≡ "left_ankle") ⊎ (s ≡ "right_ankle") → lower (strip s) ≡ s
unfolding lower strip
group_normal s (inl e) = rw e refl
group_normal s (inr e) = rw e refl

-- The form of a goal that is admitted is its own normal form.
admitted_normal :
    (request : MotionGoalSpec)
    → IsGoal (normalized_ids request)
    → normalized_ids (normalized_ids request) ≡ normalized_ids request
unfolding normalized_ids
admitted_normal request h = rw (
  strip-strip request.task_id,
  strip-strip request.trace_id,
  strip-strip request.session_id,
  group_normal (lower (strip request.target_group)) h.group,
  h.ankle,
  ankle_normal,
)

-- An admitted goal is in normal form: it is admitted again, as it is.
pub normalize-normalize :
    (request g : MotionGoalSpec)
    → normalize_motion_goal request ≡ ok g
    → normalize_motion_goal g ≡ ok g
normalize-normalize request g h =
    let (same, goal) = (normalize_motion_goal_iff request g).0 h in
    (normalize_motion_goal_iff g g).1 (
      same ∙ sym (admitted_normal request (subst IsGoal same goal)) ∙ ap normalized_ids (sym same),
      goal,
    )
