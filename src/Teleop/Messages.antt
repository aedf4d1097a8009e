-- ===== src/Teleop/Messages.antt =====
-- message_handler.py and websocket_handler.py: the type of a message, the types that extensions have
-- registered, and who handles a message.
use robot_runtime.Prelude.{
  Bool, List, Option, String, [], contains, false, if◌then◌else◌, is_empty, lower, none, not, some,
  string_eq, strip, true, ◌&&◌, ◌==◌, ◌∷◌,
}
use robot_runtime.Teleop.Formats.{any_key}
use robot_runtime.Teleop.Json.{Fields, Json, get_value, has_key, object, text}
use robot_runtime.Teleop.Parse.{is_true}

pub data MessageType : Type 0 where
  heartbeat : MessageType
  servo_control : MessageType
  teleop_claim : MessageType
  teleop_release : MessageType
  broadcast : MessageType
  private_message : MessageType
  register : MessageType
  register_ack : MessageType
  status_query : MessageType
  unknown : MessageType

-- `MessageType(word)`: `none` is the `ValueError`.
unfoldable pub type_named : String → Option MessageType
type_named word =
    if word == "heartbeat"
    then some heartbeat
    else if word == "servo_control"
    then some servo_control
    else if word == "teleop_claim"
    then some teleop_claim
    else if word == "teleop_release"
    then some teleop_release
    else if word == "broadcast"
    then some broadcast
    else if word == "private"
    then some private_message
    else if word == "register"
    then some register
    else if word == "register_ack"
    then some register_ack
    else if word == "status_query"
    then some status_query
    else if word == "unknown"
    then some unknown
    else none

abbrev servo_keys : List String
servo_keys =
    "b" ∷ "c" ∷ "p" ∷ "id" ∷ "servo_id" ∷ "channel" ∷ "angle" ∷ "position" ∷ "speed"
    ∷ "is_bus_servo" ∷ []

unfoldable pub is_servo_payload : Json → Bool
unfolding any_key
is_servo_payload (object web_servo) =
    any_key ("is_bus_servo" ∷ "servo_id" ∷ "channel" ∷ "position" ∷ "speed" ∷ []) web_servo
is_servo_payload _ = true

unfoldable pub is_servo_control : Fields → Bool
unfolding is_servo_payload
is_servo_control members =
    if has_key "web_servo" members
    then is_servo_payload (get_value "web_servo" members)
    else any_key servo_keys members

-- The type by what the message holds, where it names none.
unfoldable pub inferred_type : Fields → MessageType
unfolding is_servo_control
inferred_type members =
    if is_servo_control members
    then servo_control
    else if has_key "timestamp" members && has_key "status" members
    then heartbeat
    else unknown

unfoldable pub named_or_inferred : String → Fields → MessageType
unfolding inferred_type
named_or_inferred word members = elim (type_named word) [
  | none ↦ inferred_type members
  | some type ↦ type
]

-- `data.get("type") or data.get("Type") or data.get("TYPE") or ""`
unfoldable pub type_value : Fields → Json
unfolding is_true
type_value members =
    let first = get_value "type" members in
    let second = get_value "Type" members in
    let third = get_value "TYPE" members in
    if is_true first
    then first
    else if is_true second
    then second
    else if is_true third
    then third
    else text ""

-- `none` where the value has no method `lower`, which raises.
unfoldable pub lowered_text : Json → Option String
lowered_text (text s) = some (lower s)
lowered_text _ = none

unfoldable pub get_message_type : Json → Option MessageType
unfolding named_or_inferred type_value lowered_text
get_message_type (object members) = elim (lowered_text (type_value members)) [
  | none ↦ none
  | some word ↦ some (named_or_inferred (strip word) members)
]
get_message_type _ = some unknown

unfoldable pub nonblank : Json → Option String
nonblank (text s) = if is_empty (strip s) then none else some (lower (strip s))
nonblank _ = none

unfoldable pub first_nonblank : List String → Fields → String
unfolding nonblank
first_nonblank [] members = ""
first_nonblank (key ∷ keys) members =
    let rest = first_nonblank keys members in
    elim (nonblank (get_value key members)) [ none ↦ rest | some word ↦ word ]

unfoldable pub explicit_message_type : Json → String
unfolding first_nonblank
explicit_message_type (object members) = first_nonblank ("type" ∷ "Type" ∷ "TYPE" ∷ []) members
explicit_message_type _ = ""

abbrev is_known : Option MessageType → Bool
is_known none = false
is_known (some unknown) = false
is_known (some _) = true

unfoldable pub is_builtin_message_type : String → Bool
unfolding type_named
is_builtin_message_type word = is_known (type_named word)

-- The registered types; `none` is the `ValueError`.
unfoldable pub register_message_handler : String → List String → Option (List String)
unfolding contains
register_message_handler msg_type registered =
    let normalized_type = lower (strip msg_type) in
    if is_empty normalized_type
    then none
    else if is_builtin_message_type normalized_type
    then none
    else if contains normalized_type registered
    then none
    else some (normalized_type ∷ registered)

-- Who gets a message that reaches `handle_message`. The server looks at the type before: there a message
-- whose `type` is there and is no text raises, and gets an answer that its format is wrong.
pub data Route : Type 0 where
  to_extension : String → Route
  to_builtin : MessageType → Route
  raises : Route

abbrev pub route_to_type : Option MessageType → Route
route_to_type none = raises
route_to_type (some type) = to_builtin type

unfoldable pub route_of : List String → Json → Route
unfolding contains
route_of registered message =
    let word = explicit_message_type message in
    if not (is_empty word) && contains word registered && not (is_builtin_message_type word)
    then to_extension word
    else route_to_type (get_message_type message)
