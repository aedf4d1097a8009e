-- ===== src/SafetyLatch/Names.antt =====
-- Command names: `normalize_protocol_command`, `is_stop_command`, `is_motion_command`.
use Prim.Native.Char.{Char, code}
use Prim.Native.String as Text
use robot_runtime.Prelude.{
  Bool, List, Option, String, [], contains, if◌then◌else◌, lower, nat_eq, none, refl, some,
  string_eq, strip, true, ◌==◌, ◌∷◌, ◌≡◌,
}

-- `text.replace(from, to)` for one character each
unfoldable pub replace_char : Char → Char → String → String
replace_char from to Text.[] = Text.[]
replace_char from to (Text.◌∷◌ c s) =
    Text.◌∷◌ (if code c == code from then to else c) (replace_char from to s)

-- The text behind a prefix, where there is one.
unfoldable pub after_prefix : String → String → Option String
after_prefix Text.[] s = some s
after_prefix (Text.◌∷◌ p ps) Text.[] = none
after_prefix (Text.◌∷◌ p ps) (Text.◌∷◌ c s) = if code p == code c then after_prefix ps s else none

-- `if text.startswith(prefix): text = text[len(prefix):]`
unfoldable pub remove_prefix : String → String → String
unfolding after_prefix
remove_prefix prefix s = elim (after_prefix prefix s) [ none ↦ s | some rest ↦ rest ]

unfoldable pub normalize_protocol_command : String → String
unfolding replace_char remove_prefix strip lower
normalize_protocol_command command =
    remove_prefix "servo_" (
      remove_prefix "encode_" (replace_char " " "_" (replace_char "-" "_" (lower (strip command)))))

abbrev pub stop_commands : List String
stop_commands = "move_stop" ∷ "motion_stop" ∷ "stop_motion" ∷ []

abbrev pub motion_commands : List String
motion_commands =
    "move" ∷ "send_position" ∷ "move_command" ∷ "move_time_write" ∷ "move_time_wait_write"
    ∷ "move_start" ∷ "motion_continue" ∷ "continue_motion" ∷ []

unfoldable pub is_stop_command : String → Bool
unfolding normalize_protocol_command contains
is_stop_command command = contains (normalize_protocol_command command) stop_commands

unfoldable pub is_motion_command : String → Bool
unfolding normalize_protocol_command contains
is_motion_command command = contains (normalize_protocol_command command) motion_commands

stop_alias : is_stop_command " Servo-Move Stop" ≡ true
unfolding is_stop_command
stop_alias = refl

motion_alias : is_motion_command "ENCODE_move_time_write" ≡ true
unfolding is_motion_command
motion_alias = refl
