-- ===== src/Speech/Intent.antt =====
-- intent_contract.py: a spoken intent is read from JSON, checked and mapped to the goal of a task. What
-- `json.loads` makes of a payload is given: the value, or the reason with which it or one of its two
-- hooks raises. An error is the reason of `IntentValidationError`.
use Prim.Native.String as Text
use Prim.Native.String.{◌++◌}
use robot_runtime.Prelude.{
  Bool, List, Option, String, [], contains, false, if◌then◌else◌, is_empty, ltb, none, not, some,
  string_eq, strip, suc, ℕ, ◌&&◌, ◌==◌, ◌∷◌, ◌||◌,
}
use robot_runtime.Motion.Float.{Float, finite, is_finite, whole}
use robot_runtime.Motion.Goal.{
  Result, error, fails, in_workspace, is_supported_group, ok, timeout_in_range,
}
use robot_runtime.Prelude.Int.{leb_ℤ, ltb_ℤ, negsuc, pos, ℤ}
use robot_runtime.Task.Contract.{TaskGoal, supported_task_type}
use robot_runtime.Teleop.Json.{
  Fields, Json, empty_object, field, float_number, get_value, has_key, negate, object, text,
  whole_number,
}
use robot_runtime.Teleop.Position.{float_overflows}

pub record SpeechIntent : Type 0 where
  pub intent_id : String
  pub task_id : String
  pub trace_id : String
  pub session_id : String
  pub task_type : String
  pub target_group : String
  pub roll : Float
  pub pitch : Float
  pub yaw : Float
  pub duration_ms : ℤ
  pub position_tolerance : ℤ
  pub execution_timeout_sec : Float
  pub confidence : Float

abbrev string_fields : List String
string_fields =
    "intent_id" ∷ "task_id" ∷ "trace_id" ∷ "session_id" ∷ "task_type" ∷ "target_group" ∷ []

abbrev pub required_fields : List String
required_fields =
    "intent_id" ∷ "task_id" ∷ "trace_id" ∷ "session_id" ∷ "task_type" ∷ "target_group" ∷ "roll"
    ∷ "pitch" ∷ "yaw" ∷ "duration_ms" ∷ "position_tolerance" ∷ "execution_timeout_sec"
    ∷ "confidence" ∷ []

infixl 30 ◌>>=◌
abbrev pub ◌>>=◌ : {A B : Type 0} → Result A → (A → Result B) → Result B
error reason >>= f = error reason
ok a >>= f = f a

-- `if ...: raise IntentValidationError(reason)` before the rest.
abbrev pub unless : {A : Type 0} → Option String → Result A → Result A
unless none rest = rest
unless (some reason) rest = error reason

-- `_strict_object`, over the pairs of an object.
unfoldable pub strict_object : Fields → Result Fields
strict_object empty_object = ok empty_object
strict_object (field key value rest) =
    let read = strict_object rest in
    if has_key key rest
    then error "duplicate_field"
    else (read >>= λ fields_read. ok (field key value fields_read))

unfoldable pub text_length : String → ℕ
text_length Text.[] = 0
text_length (Text.◌∷◌ c s) = suc (text_length s)

pub record Payload : Type 0 where
  pub characters : ℕ
  pub loaded : Result Json

abbrev object_of : Json → Result Fields
object_of (object members) = ok members
object_of _ = error "json_object_required"

unfoldable pub load_json_object : Payload → Result Fields
load_json_object payload =
    unless (fails (ltb 65536 payload.characters) "payload_too_large") (payload.loaded >>= object_of)

unfoldable pub checked_text : String → String → Result String
unfolding text_length
checked_text field_name value =
    if is_empty value
    then error (field_name ++ "_required")
    else if ltb 256 (text_length value)
    then error (field_name ++ "_too_long")
    else ok value

unfoldable pub string_of : String → Json → Result String
unfolding checked_text
string_of field_name (text s) = checked_text field_name (strip s)
string_of field_name _ = error (field_name ++ "_required")

unfoldable pub required_string : Fields → String → Result String
required_string document field_name = string_of field_name (get_value field_name document)

unfoldable pub optional_string : Fields → String → String
unfolding text_length
optional_string document field_name = elim (get_value field_name document) [
  | text s ↦ (if ltb 256 (text_length (strip s)) then "" else strip s)
  | _ ↦ ""
]

-- `float(n)`: an integer that is not exact as a double is out of every range that is compared.
unfoldable pub float_of : ℤ → Float
float_of (pos n) = finite (pos (whole n))
float_of (negsuc n) = finite (negate (whole (suc n)))

unfoldable pub number_of : String → Json → Result Float
unfolding float_of
number_of field_name (whole_number n) =
    if float_overflows n then error (field_name ++ "_not_finite") else ok (float_of n)
number_of field_name (float_number x) =
    if is_finite x then ok x else error (field_name ++ "_not_finite")
number_of field_name _ = error (field_name ++ "_number_required")

unfoldable pub required_number : Fields → String → Result Float
required_number document field_name = number_of field_name (get_value field_name document)

unfoldable pub integer_of : String → Json → Result ℤ
integer_of field_name (whole_number n) = ok n
integer_of field_name _ = error (field_name ++ "_integer_required")

unfoldable pub required_integer : Fields → String → Result ℤ
required_integer document field_name = integer_of field_name (get_value field_name document)

unfoldable pub is_within : ℤ → ℤ → ℤ → Bool
is_within lo hi n = leb_ℤ lo n && leb_ℤ n hi

-- `0.0 <= value <= MAX_CONFIDENCE`
unfoldable pub is_confidence : Float → Bool
is_confidence (finite n) = leb_ℤ (pos 0) n && leb_ℤ n (pos (whole 1))
is_confidence _ = false

unfoldable pub is_below : Float → Float → Bool
is_below (finite n) (finite m) = ltb_ℤ n m
is_below _ _ = false

unfoldable pub has_unknown : Fields → Bool
unfolding contains
has_unknown empty_object = false
has_unknown (field key value rest) = not (contains key required_fields) || has_unknown rest

unfoldable pub missing_field : List String → Fields → Option String
missing_field [] document = none
missing_field (field_name ∷ names) document =
    let rest = missing_field names document in
    if has_key field_name document then rest else some (field_name ++ "_required")

-- The pose, once all of it is read: the checks of its ranges in order.
unfoldable pub pose_reason : Float → Float → Float → Option String
pose_reason roll pitch yaw =
    if not (in_workspace roll)
    then some "roll_out_of_range"
    else if not (in_workspace pitch)
    then some "pitch_out_of_range"
    else if not (in_workspace yaw)
    then some "yaw_out_of_range"
    else none

-- The limits, read after the pose, and the intent that is built from them.
unfoldable pub limits_of :
    Float → Fields → (ℤ → ℤ → Float → Float → SpeechIntent) → Result SpeechIntent
unfolding required_integer required_number
limits_of minimum_confidence document build =
    required_integer document "duration_ms" >>= λ duration_ms.
    unless (fails (not (is_within (pos 1) (pos 65535) duration_ms)) "duration_ms_out_of_range") (
      required_integer document "position_tolerance" >>= λ position_tolerance.
      unless
        (fails (not (is_within (pos 1) (pos 500) position_tolerance))
          "position_tolerance_out_of_range")
        (required_number document "execution_timeout_sec" >>= λ execution_timeout_sec.
          unless
            (fails (not (timeout_in_range execution_timeout_sec))
              "execution_timeout_sec_out_of_range")
            (required_number document "confidence" >>= λ confidence.
              unless (fails (not (is_confidence confidence)) "confidence_out_of_range") (
                unless (fails (is_below confidence minimum_confidence) "confidence_below_minimum")
                  (ok (build duration_ms position_tolerance execution_timeout_sec confidence))))))

unfoldable pub intent_of : Float → Fields → Result SpeechIntent
unfolding required_string required_number pose_reason limits_of
intent_of minimum_confidence document = required_string document "intent_id" >>= λ intent_id.
    required_string document "task_id" >>= λ task_id.
    required_string document "trace_id" >>= λ trace_id.
    required_string document "session_id" >>= λ session_id.
    required_string document "task_type" >>= λ task_type.
    required_string document "target_group" >>= λ target_group.
    unless (fails (not (task_type == supported_task_type)) "unsupported_task_type") (
      unless (fails (not (is_supported_group target_group)) "unsupported_target_group") (
        required_number document "roll" >>= λ roll. required_number document "pitch" >>= λ pitch.
        required_number document "yaw" >>= λ yaw. unless (pose_reason roll pitch yaw) (
          limits_of minimum_confidence document
            λ duration_ms position_tolerance execution_timeout_sec confidence. record {
              intent_id = intent_id;
              task_id = task_id;
              trace_id = trace_id;
              session_id = session_id;
              task_type = task_type;
              target_group = target_group;
              roll = roll;
              pitch = pitch;
              yaw = yaw;
              duration_ms = duration_ms;
              position_tolerance = position_tolerance;
              execution_timeout_sec = execution_timeout_sec;
              confidence = confidence;
            })))

-- `none` is the `ValueError` that a wrong minimum raises.
unfoldable pub parse_speech_intent : Float → Payload → Option (Result SpeechIntent)
unfolding intent_of
parse_speech_intent minimum_confidence payload =
    if not (is_confidence minimum_confidence)
    then none
    else some (
        load_json_object payload >>= λ document.
        unless (fails (has_unknown document) "unknown_field")
          (unless (missing_field required_fields document) (intent_of minimum_confidence document)))

-- The identity that a rejection can still name.
pub record SpeechContext : Type 0 where
  pub intent_id : String
  pub task_id : String
  pub trace_id : String
  pub session_id : String
  pub task_type : String
  pub target_group : String

unfoldable pub context_from : Result Fields → Option SpeechContext
unfolding optional_string
context_from (error reason) = none
context_from (ok document) = some (record {
  intent_id = optional_string document "intent_id";
  task_id = optional_string document "task_id";
  trace_id = optional_string document "trace_id";
  session_id = optional_string document "session_id";
  task_type = optional_string document "task_type";
  target_group = optional_string document "target_group";
})

unfoldable pub extract_speech_context : Payload → Option SpeechContext
unfolding context_from
extract_speech_context payload = context_from (load_json_object payload)

unfoldable pub map_intent_to_task_goal : SpeechIntent → TaskGoal
map_intent_to_task_goal intent = record {
  task_id = intent.task_id;
  trace_id = intent.trace_id;
  session_id = intent.session_id;
  task_type = intent.task_type;
  target_group = intent.target_group;
  roll_deg = intent.roll;
  pitch_deg = intent.pitch;
  yaw_deg = intent.yaw;
  duration_ms = intent.duration_ms;
  position_tolerance = intent.position_tolerance;
  execution_timeout_sec = intent.execution_timeout_sec;
}
