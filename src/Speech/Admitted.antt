-- ===== src/Speech/Admitted.antt =====
-- Spoken intents that are accepted are goals of tasks and of motions.
use robot_runtime.Prelude.{String, arith, false, none, not, refl, some, string_eq, true, ◌≡◌}
use robot_runtime.Motion.Checked.{fails_iff, first_reason_iff}
use robot_runtime.Motion.Float.{Float, finite, infinite, is_finite, minus_infinite, nan}
use robot_runtime.Motion.Goal.{
  angle_error, in_workspace, normalize_motion_goal, normalized_ids, ok, timeout_in_range,
}
use robot_runtime.Prelude.Int.{leb_ℤ, pos, ℤ, ◌≤ℤ◌}
use robot_runtime.Speech.Intent.{
  Payload, SpeechIntent, is_below, is_within, map_intent_to_task_goal, parse_speech_intent,
  pose_reason,
}
use robot_runtime.Task.Accepted.{accepted_tasks_are_goals}
use robot_runtime.Task.Contract.{map_task_goal, task_checks, validate_task_goal}
use robot_runtime.Speech.Spoken.{IsSpoken, parsed-IsSpoken}

angle_accepted :
    (not_finite out_of_range : String) (angle : Float)
    → in_workspace angle ≡ true
    → angle_error not_finite out_of_range angle ≡ none
unfolding angle_error is_finite
angle_accepted not_finite out_of_range (finite n) h = rw h refl
angle_accepted not_finite out_of_range infinite h = absurd (let bad : false ≡ true = h in cc)
angle_accepted not_finite out_of_range minus_infinite h = absurd (let bad : false ≡ true = h in cc)
angle_accepted not_finite out_of_range nan h = absurd (let bad : false ≡ true = h in cc)

pose_accepted :
    (roll pitch yaw : Float)
    → pose_reason roll pitch yaw ≡ none
    → (in_workspace roll ≡ true) × (in_workspace pitch ≡ true) × (in_workspace yaw ≡ true)
unfolding pose_reason
pose_accepted roll pitch yaw h = ground arith

timeout_finite :
    (timeout : Float) → not (timeout_in_range timeout) ≡ false → not (is_finite timeout) ≡ false
unfolding timeout_in_range is_finite
timeout_finite (finite n) h = refl
timeout_finite infinite h = h
timeout_finite minus_infinite h = h
timeout_finite nan h = h

duration_accepted :
    (n : ℤ) → not (is_within (pos 1) (pos 65535) n) ≡ false → leb_ℤ n (pos 0) ≡ false
unfolding is_within
duration_accepted n h = ground arith

goal_accepted :
    (minimum_confidence : Float) (i : SpeechIntent)
    → IsSpoken minimum_confidence i
    → validate_task_goal (map_intent_to_task_goal i) ≡ none
unfolding validate_task_goal task_checks map_intent_to_task_goal is_within
goal_accepted minimum_confidence i s =
    let (roll, pitch, yaw) = pose_accepted i.roll i.pitch i.yaw s.pose in
    (first_reason_iff (task_checks (map_intent_to_task_goal i))).1 (
      (fails_iff _ _).1 s.task,
      (
        (fails_iff _ _).1 s.trace,
        (
          (fails_iff _ _).1 s.session,
          (
            (fails_iff _ _).1 s.kind,
            (
              (fails_iff _ _).1 s.group,
              (
                angle_accepted _ _ i.roll roll,
                (
                  angle_accepted _ _ i.pitch pitch,
                  (
                    angle_accepted _ _ i.yaw yaw,
                    (
                      (fails_iff _ _).1 (duration_accepted i.duration_ms s.duration),
                      (
                        (fails_iff _ _).1 s.tolerance,
                        (
                          (fails_iff _ _).1 (timeout_finite i.execution_timeout_sec s.timeout),
                          ((fails_iff _ _).1 s.timeout, tt),
                        ),
                      ),
                    ),
                  ),
                ),
              ),
            ),
          ),
        ),
      ),
    )

-- A payload that is accepted as a spoken intent gives a task goal that the task bridge accepts, and a
-- motion goal that the controller accepts in its normal form. Its duration fits the 16 bits of the
-- message, and it is not less sure than what was asked for.
pub spoken_intents_are_goals :
    (minimum_confidence : Float) (payload : Payload) (intent : SpeechIntent)
    → parse_speech_intent minimum_confidence payload ≡ some (ok intent)
    → let goal = map_intent_to_task_goal intent in
      (validate_task_goal goal ≡ none)
      × (normalize_motion_goal (map_task_goal goal) ≡ ok (normalized_ids (map_task_goal goal)))
      × (pos 1 ≤ℤ goal.duration_ms)
      × (goal.duration_ms ≤ℤ pos 65535)
      × (is_below intent.confidence minimum_confidence ≡ false)
unfolding is_within map_intent_to_task_goal
spoken_intents_are_goals minimum_confidence payload intent h =
    let s = parsed-IsSpoken minimum_confidence payload intent h in
    let accepted = goal_accepted minimum_confidence intent s in
    let long = s.duration in
    (
      accepted,
      accepted_tasks_are_goals (map_intent_to_task_goal intent) accepted,
      ground arith,
      ground arith,
      s.sure,
    )
