-- ===== src/Speech/Tests.antt =====
-- The intent's theorem at a payload.
use robot_runtime.Teleop.Position.{float_overflows}
use robot_runtime.Prelude.{none, refl, some, false, ◌≡◌, ◌-◌, contains, strip}
use robot_runtime.Motion.Float.{finite, whole, one_tenth, is_finite}
use robot_runtime.Motion.Goal.{
  normalize_motion_goal, normalized_ids, ok, fails, in_workspace, is_supported_group,
  timeout_in_range,
}
use robot_runtime.Prelude.Int.{negsuc, pos, ◌≤ℤ◌}
use robot_runtime.Speech.Admitted.{spoken_intents_are_goals}
use robot_runtime.Speech.Intent.{
  Payload, SpeechIntent, is_below, map_intent_to_task_goal, parse_speech_intent, is_confidence,
  load_json_object, has_unknown, missing_field, intent_of, required_string, string_of, checked_text,
  text_length, required_number, number_of, float_of, required_integer, integer_of, is_within,
  pose_reason,
}
use robot_runtime.Task.Contract.{map_task_goal, validate_task_goal}
use robot_runtime.Teleop.Json.{
  Fields, empty_object, field, object, text, whole_number, get_value, get_or, get, has_key,
}

abbrev words : Fields → Fields
words rest = field "intent_id" (text "i1") (
    field "task_id" (text " walk ") (
      field "trace_id" (text "t1") (
        field "session_id" (text "s1")
          (field "task_type" (text "ankle_pose") (field "target_group" (text "left_ankle") rest)))))

abbrev numbers : Fields
numbers = field "roll" (whole_number (negsuc 4)) (
    field "pitch" (whole_number (pos 0)) (
      field "yaw" (whole_number (pos 30)) (
        field "duration_ms" (whole_number (pos 200)) (
          field "position_tolerance" (whole_number (pos 8)) (
            field "execution_timeout_sec" (whole_number (pos 2))
              (field "confidence" (whole_number (pos 1)) empty_object))))))

abbrev payload : Payload
payload = record { characters = 300; loaded = ok (object (words numbers)) }

abbrev intent : SpeechIntent
intent = record {
  intent_id = "i1";
  task_id = "walk";
  trace_id = "t1";
  session_id = "s1";
  task_type = "ankle_pose";
  target_group = "left_ankle";
  roll = finite (negsuc (whole 5 - 1));
  pitch = finite (pos 0);
  yaw = finite (pos (whole 30));
  duration_ms = pos 200;
  position_tolerance = pos 8;
  execution_timeout_sec = finite (pos (whole 2));
  confidence = finite (pos (whole 1));
}

payload_parses : parse_speech_intent (finite (pos 1)) payload ≡ some (ok intent)
unfolding parse_speech_intent is_confidence load_json_object has_unknown missing_field intent_of
    required_string string_of checked_text text_length required_number number_of float_of
    required_integer integer_of is_within pose_reason is_below fails in_workspace is_supported_group
    timeout_in_range whole one_tenth is_finite float_overflows get_value get_or get has_key contains
    strip
payload_parses = refl

spoken_intents_are_goals_example :
    (validate_task_goal (map_intent_to_task_goal intent) ≡ none)
    × (normalize_motion_goal (map_task_goal (map_intent_to_task_goal intent))
        ≡ ok (normalized_ids (map_task_goal (map_intent_to_task_goal intent))))
    × (pos 1 ≤ℤ pos 200)
    × (pos 200 ≤ℤ pos 65535)
    × (is_below intent.confidence (finite (pos 1)) ≡ false)
unfolding map_intent_to_task_goal
spoken_intents_are_goals_example =
    spoken_intents_are_goals (finite (pos 1)) payload intent payload_parses
