-- ===== src/Motion/Checked.antt =====
-- The checks of a motion goal, one by one, and what they mean together.
use text.Mathlib.TextEquality.{eq_iff}
use robot_runtime.Prelude.{
  All, Bool, List, Option, String, [], ap, arith, false, is_empty, leb, nat_eq, none, not, refl,
  some, string_eq, true, ◌&&◌, ◌+◌, ◌==◌, ◌↔◌, ◌∷◌, ◌≡◌, ◌≢◌, ◌≤◌, ◌⊎◌,
}
use robot_runtime.Motion.Float.{
  Float, finite, infinite, is_finite, minus_infinite, nan, one_tenth, whole,
}
use robot_runtime.Motion.Goal.{
  MotionGoalSpec, angle_error, fails, first_reason, goal_checks, in_workspace, is_supported_group,
  ok, supported_motion_type, timeout_in_range, unless_raised,
}
use robot_runtime.Prelude.Int.{leb_ℤ, neg_part, pos, pos_part, ℤ, ◌≤ℤ◌}

-- The float is a finite number, and it lies between the bounds.
pub record IsAngle (angle : Float) : Type 0 where
  pub value : ℤ
  pub known : angle ≡ finite value
  pub small : pos_part value + neg_part value ≤ whole 30

pub record IsTimeout (timeout : Float) : Type 0 where
  pub value : ℤ
  pub known : timeout ≡ finite value
  pub low : pos one_tenth ≤ℤ value
  pub high : value ≤ℤ pos (whole 120)

-- What a motion goal must be.
pub record IsGoal (g : MotionGoalSpec) : Type 0 where
  pub task : g.task_id ≢ ""
  pub trace : g.trace_id ≢ ""
  pub session : g.session_id ≢ ""
  pub ankle : g.motion_type ≡ supported_motion_type
  pub group : (g.target_group ≡ "left_ankle") ⊎ (g.target_group ≡ "right_ankle")
  pub roll : IsAngle g.roll_deg
  pub pitch : IsAngle g.pitch_deg
  pub yaw : IsAngle g.yaw_deg
  pub duration : pos 1 ≤ℤ g.duration_ms
  pub tolerance_low : pos 1 ≤ℤ g.position_tolerance
  pub tolerance_high : g.position_tolerance ≤ℤ pos 500
  pub timeout : IsTimeout g.execution_timeout_sec

pub first_reason_iff :
    (checks : List (Option String)) → (first_reason checks ≡ none) ↔ All (λ c. c ≡ none) checks
unfolding first_reason
first_reason_iff [] = (λ h. tt, λ h. refl)
first_reason_iff (none ∷ rest) =
    let rest_iff = first_reason_iff rest in (λ h. (refl, rest_iff.0 h), λ h. rest_iff.1 h.1)
first_reason_iff (some reason ∷ rest) = (λ h. cc, λ h. let e = h.0 in cc)

pub fails_iff : (failed : Bool) (reason : String) → (fails failed reason ≡ none) ↔ (failed ≡ false)
unfolding fails
fails_iff true reason = (λ h. cc, λ h. cc)
fails_iff false reason = (λ h. refl, λ h. refl)

pub empty_iff : (s : String) → (is_empty s ≡ false) ↔ (s ≢ "")
empty_iff s = ground (arith, eq_iff s "")

pub same_iff : (s t : String) → (not (s == t) ≡ false) ↔ (s ≡ t)
same_iff s t = ground (arith, eq_iff s t)

pub group_iff :
    (s : String) → (not (is_supported_group s) ≡ false) ↔ ((s ≡ "left_ankle") ⊎ (s ≡ "right_ankle"))
unfolding is_supported_group
group_iff s = ground (arith, eq_iff s "left_ankle", eq_iff s "right_ankle")

angle_small :
    (n v : ℤ)
    → finite n ≡ finite v
    → pos_part v + neg_part v ≤ whole 30
    → not (leb (pos_part n + neg_part n) (whole 30)) ≡ false
angle_small n v e h = let same : n ≡ v = cc in rw same (ground arith)

timeout_fits :
    (n v : ℤ)
    → finite n ≡ finite v
    → pos one_tenth ≤ℤ v
    → v ≤ℤ pos (whole 120)
    → not (leb_ℤ (pos one_tenth) n && leb_ℤ n (pos (whole 120))) ≡ false
timeout_fits n v e l h = let same : n ≡ v = cc in rw same (ground arith)

pub IsAngle-iff :
    (not_finite out : String) (angle : Float)
    → (angle_error not_finite out angle ≡ none) ↔ IsAngle angle
unfolding angle_error in_workspace is_finite
IsAngle-iff not_finite out (finite n) = (
  λ h. record { value = n; known = refl; small = ground arith },
  λ h. rw (angle_small n h.value h.known h.small) refl,
)
IsAngle-iff not_finite out infinite = (λ h. cc, λ h. let e = h.known in cc)
IsAngle-iff not_finite out minus_infinite = (λ h. cc, λ h. let e = h.known in cc)
IsAngle-iff not_finite out nan = (λ h. cc, λ h. let e = h.known in cc)

pub IsTimeout-iff :
    (timeout : Float)
    → ((not (is_finite timeout) ≡ false) × (not (timeout_in_range timeout) ≡ false))
      ↔ IsTimeout timeout
unfolding is_finite timeout_in_range
IsTimeout-iff (finite n) = (
  λ h.
      let high = h.1 in record { value = n; known = refl; low = ground arith; high = ground arith },
  λ h. (refl, timeout_fits n h.value h.known h.low h.high),
)
IsTimeout-iff infinite = (λ h. let e = h.0 in cc, λ h. let e = h.known in cc)
IsTimeout-iff minus_infinite = (λ h. let e = h.0 in cc, λ h. let e = h.known in cc)
IsTimeout-iff nan = (λ h. let e = h.0 in cc, λ h. let e = h.known in cc)

pub checks_of : (g : MotionGoalSpec) → IsGoal g → All (λ c. c ≡ none) (goal_checks g)
unfolding goal_checks
checks_of g h = (
  (fails_iff (is_empty g.task_id) _).1 ((empty_iff g.task_id).1 h.task),
  (
    (fails_iff (is_empty g.trace_id) _).1 ((empty_iff g.trace_id).1 h.trace),
    (
      (fails_iff (is_empty g.session_id) _).1 ((empty_iff g.session_id).1 h.session),
      (
        (fails_iff (not (g.motion_type == supported_motion_type)) _).1
            ((same_iff g.motion_type supported_motion_type).1 h.ankle),
        (
          (fails_iff (not (is_supported_group g.target_group)) _).1
              ((group_iff g.target_group).1 h.group),
          (
            (IsAngle-iff _ _ g.roll_deg).1 h.roll,
            (
              (IsAngle-iff _ _ g.pitch_deg).1 h.pitch,
              (
                (IsAngle-iff _ _ g.yaw_deg).1 h.yaw,
                (
                  (fails_iff (leb_ℤ g.duration_ms (pos 0)) _).1
                      (let low = h.duration in ground arith),
                  (
                    (fails_iff
                          (not (
                            leb_ℤ (pos 1) g.position_tolerance
                            && leb_ℤ g.position_tolerance (pos 500)))
                          _).1
                        (let low = h.tolerance_low in let high = h.tolerance_high in ground arith),
                    (
                      (fails_iff (not (is_finite g.execution_timeout_sec)) _).1
                          ((IsTimeout-iff g.execution_timeout_sec).1 h.timeout).0,
                      (
                        (fails_iff (not (timeout_in_range g.execution_timeout_sec)) _).1
                            ((IsTimeout-iff g.execution_timeout_sec).1 h.timeout).1,
                        tt,
                      ),
                    ),
                  ),
                ),
              ),
            ),
          ),
        ),
      ),
    ),
  ),
)

pub IsGoal-of : (g : MotionGoalSpec) → All (λ c. c ≡ none) (goal_checks g) → IsGoal g
unfolding goal_checks
IsGoal-of g h = record {
  task = (empty_iff g.task_id).0 ((fails_iff _ _).0 h.0);
  trace = (empty_iff g.trace_id).0 ((fails_iff _ _).0 h.1.0);
  session = (empty_iff g.session_id).0 ((fails_iff _ _).0 h.1.1.0);
  ankle = (same_iff g.motion_type supported_motion_type).0 ((fails_iff _ _).0 h.1.1.1.0);
  group = (group_iff g.target_group).0 ((fails_iff _ _).0 h.1.1.1.1.0);
  roll = (IsAngle-iff _ _ g.roll_deg).0 h.1.1.1.1.1.0;
  pitch = (IsAngle-iff _ _ g.pitch_deg).0 h.1.1.1.1.1.1.0;
  yaw = (IsAngle-iff _ _ g.yaw_deg).0 h.1.1.1.1.1.1.1.0;
  duration =
      let e = (fails_iff (leb_ℤ g.duration_ms (pos 0)) _).0 h.1.1.1.1.1.1.1.1.0 in ground arith;
  tolerance_low =
      let e =
        (fails_iff
            (not (leb_ℤ (pos 1) g.position_tolerance && leb_ℤ g.position_tolerance (pos 500))) _).0
          h.1.1.1.1.1.1.1.1.1.0 in
      ground arith;
  tolerance_high =
      let e =
        (fails_iff
            (not (leb_ℤ (pos 1) g.position_tolerance && leb_ℤ g.position_tolerance (pos 500))) _).0
          h.1.1.1.1.1.1.1.1.1.0 in
      ground arith;
  timeout =
      (IsTimeout-iff g.execution_timeout_sec).0
        ((fails_iff _ _).0 h.1.1.1.1.1.1.1.1.1.1.0, (fails_iff _ _).0 h.1.1.1.1.1.1.1.1.1.1.1.0);
}

pub raised_iff :
    (reason : Option String) (n g : MotionGoalSpec)
    → (unless_raised reason n ≡ ok g) ↔ ((reason ≡ none) × (n ≡ g))
unfolding unless_raised
raised_iff none n g = (λ h. (refl, cc), λ h. ap ok h.1)
raised_iff (some reason) n g = (λ h. cc, λ h. let e = h.0 in cc)

pub IsGoal-iff : (g : MotionGoalSpec) → (first_reason (goal_checks g) ≡ none) ↔ IsGoal g
IsGoal-iff g =
    let checks = first_reason_iff (goal_checks g) in
    (λ h. IsGoal-of g (checks.0 h), λ h. checks.1 (checks_of g h))
