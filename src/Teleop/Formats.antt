-- ===== src/Teleop/Formats.antt =====
-- message_handler.py, continued: the payload `web_servo`, the full format, and the choice between the
-- formats. A check that ends a parser early with `None` is a `none` between the steps.
use robot_runtime.Prelude.{
  Bool, List, Option, String, [], contains, false, if◌then◌else◌, none, some, string_eq, true, ◌&&◌,
  ◌==◌, ◌||◌, ◌∷◌, not,
}
use robot_runtime.Prelude.Int.{int_eq, negsuc, pos, ℤ}
use robot_runtime.Teleop.Json.{
  Fields, Json, Run, done, flag, float_number, get, get_or, get_value, has_key, int_of,
  int_of_float, null, object, text, whole_number, word_of, ◌>>=◌,
}
use robot_runtime.Teleop.Parse.{
  ParsedCommand, catching, is_true, normalize_bus_position, parse_bcp_protocol, resolve_duration_ms,
  zero_number,
}

-- The word of `is_bus_servo`.
unfoldable pub flag_word : String → Option Bool
unfolding contains
flag_word word =
    if contains word ("true" ∷ "1" ∷ "yes" ∷ "y" ∷ "bus" ∷ [])
    then some true
    else if contains word ("false" ∷ "0" ∷ "no" ∷ "n" ∷ "pca" ∷ "pwm" ∷ [])
    then some false
    else none

abbrev nonzero : ℤ → Option Bool
nonzero n = some (not (n == pos 0))

unfoldable pub bus_flag : Json → Run (Option Bool)
unfolding flag_word
bus_flag (flag b) = done (some b)
bus_flag (whole_number n) = done (nonzero n)
bus_flag (float_number x) = int_of_float x >>= λ n. done (nonzero n)
bus_flag (text s) = done (flag_word (word_of (text s)))
bus_flag _ = done none

-- The word of `servo_type`.
unfoldable pub type_word : String → Option Bool
type_word word =
    if word == "bus" || word == "bus_servo"
    then some true
    else if word == "pca" || word == "pca_servo" || word == "pwm"
    then some false
    else none

abbrev pub is_null : Json → Bool
is_null null = true
is_null _ = false

abbrev from_outer : String → Option Fields → Json
from_outer key none = null
from_outer key (some outer) = get_value key outer

unfoldable pub type_of_payload : Fields → Option Fields → Option Bool
unfolding type_word
type_of_payload web_servo outer =
    let own = get_value "servo_type" web_servo in
    type_word (word_of (if is_null own then from_outer "servo_type" outer else own))

-- The flag, or the type where there is none.
abbrev or_type : Option Bool → Option Bool → Option Bool
or_type none by_type = by_type
or_type (some is_bus) by_type = some is_bus

unfoldable pub is_bus_payload : Fields → Option Fields → Run (Option Bool)
unfolding bus_flag type_of_payload
is_bus_payload web_servo outer = bus_flag (get_value "is_bus_servo" web_servo) >>= λ by_flag.
    done (or_type by_flag (type_of_payload web_servo outer))

unfoldable pub position_of : Bool → Json → String → Bool → Run ℤ
position_of true position encoding treat_as_raw =
    int_of position >>= λ raw. normalize_bus_position raw encoding treat_as_raw
position_of false position encoding treat_as_raw = int_of position

abbrev pub command_of : Bool → ℤ → ℤ → ℤ → ℤ → ParsedCommand
command_of is_bus servo_id position duration_ms port = record {
  servo_type = if is_bus then "bus" else "pca";
  servo_id = servo_id;
  position = position;
  value_encoding = if is_bus then "bus_pulse_us" else "pca_tick";
  duration_ms = duration_ms;
  port = port;
}

unfoldable pub payload_encoding : Fields → Option Fields → String
unfolding is_true
payload_encoding web_servo outer =
    let own = get_value "value_encoding" web_servo in
    word_of (if is_true own then own else from_outer "value_encoding" outer)

-- The rest of `_parse_web_servo_payload`, for a payload whose type, identifier and position are there.
unfoldable pub payload_command :
    Fields → Option Fields → Bool → Json → Json → Run (Option ParsedCommand)
unfolding payload_encoding position_of
payload_command web_servo outer is_bus servo_id position =
    resolve_duration_ms (get_value "duration_ms" web_servo)
      (get_or "speed" (from_outer "speed" outer) web_servo)
    >>= λ duration_ms.
        position_of is_bus position (payload_encoding web_servo outer) false >>= λ target.
        int_of servo_id >>= λ id. int_of (get_or "port" zero_number web_servo) >>= λ port.
        done (some (command_of is_bus id target duration_ms port))

unfoldable pub known_payload : Fields → Option Fields → Option Bool → Run (Option ParsedCommand)
unfolding payload_command
known_payload web_servo outer none = done none
known_payload web_servo outer (some is_bus) =
    let servo_id = get_or "servo_id" (get_value "channel" web_servo) web_servo in
    let position = get_or "position" (get_value "angle" web_servo) web_servo in
    if is_null servo_id || is_null position
    then done none
    else payload_command web_servo outer is_bus servo_id position

unfoldable pub parse_web_servo_payload : Json → Option Fields → Run (Option ParsedCommand)
unfolding is_bus_payload known_payload
parse_web_servo_payload (object web_servo) outer =
    catching (is_bus_payload web_servo outer >>= known_payload web_servo outer)
parse_web_servo_payload _ outer = done none

-- The first of the keys that is there, with its value.
unfoldable pub first_of : List String → Fields → Option (String × Json)
unfolding get
first_of [] fields = none
first_of (key ∷ keys) fields =
    let rest = first_of keys fields in
    elim (get key fields) [ none ↦ rest | some value ↦ some (key, value) ]

unfoldable pub any_key : List String → Fields → Bool
any_key [] fields = false
any_key (key ∷ keys) fields = has_key key fields || any_key keys fields

-- `int(data['b'])` where `b` is there.
unfoldable pub b_flag_of : Fields → Run (Option ℤ)
unfolding get
b_flag_of fields = elim (get "b" fields) [
  | none ↦ done none
  | some value ↦ int_of value >>= λ n. done (some n)
]

abbrev is_not_pca : Option Bool → Bool
is_not_pca (some false) = false
is_not_pca _ = true

unfoldable pub full_type : Option ℤ → Fields → Bool
unfolding any_key type_word
full_type (some b_flag) fields = b_flag == negsuc 0
full_type none fields =
    if any_key ("servo_id" ∷ "id" ∷ "bus_servo" ∷ []) fields
    then true
    else if any_key ("channel" ∷ "c" ∷ []) fields
    then false
    else is_not_pca (type_word (word_of (get_value "servo_type" fields)))

abbrev is_bus_flag : Option ℤ → Bool
is_bus_flag none = false
is_bus_flag (some b_flag) = b_flag == negsuc 0

unfoldable pub full_command :
    Fields → Option ℤ → ℤ → Option (String × Json) → Run (Option ParsedCommand)
unfolding full_type position_of
full_command fields b_flag servo_id none = done none
full_command fields b_flag servo_id (some (position_key, position)) =
    let is_bus = full_type b_flag fields in
    let encoding = word_of (get_value "value_encoding" fields) in
    let treat_as_raw =
      encoding == "bus_pulse_us"
      || position_key == "pulse"
      || (position_key == "p" && is_bus_flag b_flag) in
    int_of position >>= λ raw.
    resolve_duration_ms (get_value "duration_ms" fields) (get_value "speed" fields)
    >>= λ duration_ms. position_of is_bus (whole_number raw) encoding treat_as_raw >>= λ target.
        int_of (get_or "port" zero_number fields) >>= λ port.
        done (some (command_of is_bus servo_id target duration_ms port))

unfoldable pub identified : Fields → Option ℤ → Option (String × Json) → Run (Option ParsedCommand)
unfolding full_command first_of
identified fields b_flag none = done none
identified fields b_flag (some (key, servo_id)) = int_of servo_id >>= λ id.
    full_command fields b_flag id (first_of ("position" ∷ "angle" ∷ "p" ∷ "pulse" ∷ []) fields)

unfoldable pub parse_full_format : Fields → Run (Option ParsedCommand)
unfolding b_flag_of identified
parse_full_format fields = catching (
    b_flag_of fields >>= λ b_flag.
    identified fields b_flag (first_of ("id" ∷ "servo_id" ∷ "c" ∷ "channel" ∷ []) fields))

-- The payload on the top level, where it is one, and the older formats otherwise.
unfoldable pub or_older : Option ParsedCommand → Fields → Run (Option ParsedCommand)
unfolding parse_bcp_protocol parse_full_format
or_older (some command) fields = done (some command)
or_older none fields =
    if has_key "b" fields && has_key "c" fields && has_key "p" fields
    then parse_bcp_protocol fields
    else parse_full_format fields

unfoldable pub parse_top_level : Fields → Run (Option ParsedCommand)
unfolding parse_web_servo_payload or_older any_key
parse_top_level fields =
    if any_key ("is_bus_servo" ∷ "servo_id" ∷ "position" ∷ []) fields
    then parse_web_servo_payload (object fields) none >>= (λ parsed. or_older parsed fields)
    else or_older none fields

unfoldable pub parse_servo_control : Json → Run (Option ParsedCommand)
unfolding parse_web_servo_payload parse_top_level
parse_servo_control (object fields) =
    if has_key "web_servo" fields
    then parse_web_servo_payload (get_value "web_servo" fields) (some fields)
    else parse_top_level fields
parse_servo_control _ = done none
