-- ===== src/Teleop/Bounded.antt =====
-- Every parser returns sound commands only.
use mathlib.Core.Path.{subst}
use robot_runtime.Prelude.{
  Bool, Bool-cases, Option, String, false, inl, inr, none, refl, some, string_eq, true, ◌&&◌, ◌==◌,
  ◌||◌, ◌≡◌, [], ◌∷◌,
}
use robot_runtime.Prelude.Int.{int_eq, pos, ℤ, negsuc}
use robot_runtime.Teleop.Json.{
  Fields, Json, done, int_of, object, get_or, get_value, has_key, null, flag, whole_number,
  float_number, text, array,
}
use robot_runtime.Teleop.Parse.{ParsedCommand, bcp_command, parse_bcp_protocol, zero_number}
use robot_runtime.Teleop.Runs.{
  Ensures, Whenever, bind-Ensures, catching-Ensures, either-Ensures, then-Ensures,
}
use robot_runtime.Teleop.Formats.{
  full_command, identified, is_bus_payload, known_payload, or_older, parse_full_format,
  parse_servo_control, parse_top_level, parse_web_servo_payload, payload_command, payload_encoding,
  is_null, any_key, b_flag_of, full_type,
}
use robot_runtime.Teleop.Ranges.{
  IsCommand, IsPositive, IsPulse, clamp-IsPulse, command_of-IsCommand, position_of-Ensures,
  resolve_duration_ms-Ensures,
}

bcp_command-IsCommand :
    (b_flag c_val p_val port_val duration_ms : ℤ)
    → IsPositive duration_ms
    → Whenever IsCommand (bcp_command b_flag c_val p_val port_val duration_ms)
unfolding bcp_command
bcp_command-IsCommand b_flag c_val p_val port_val duration_ms h =
    elim (Bool-cases (b_flag == negsuc 0)) [
      | inl bus ↦ rw bus (record { kind = inl (refl, refl, clamp-IsPulse p_val); lasting = h })
      | inr other ↦ elim (Bool-cases (b_flag == pos 0)) [
        | inl pca ↦ rw (other, pca) (record { kind = inr (refl, refl); lasting = h })
        | inr neither ↦ rw (other, neither) tt
      ]
    ]

parse_bcp_protocol-Ensures :
    (fields : Fields) → Ensures (Whenever IsCommand) (parse_bcp_protocol fields)
unfolding parse_bcp_protocol
parse_bcp_protocol-Ensures members = catching-Ensures IsCommand _ (
    then-Ensures (Whenever IsCommand) _ (int_of (get_or "b" zero_number members)) λ b_flag.
      then-Ensures (Whenever IsCommand) _ (int_of (get_or "c" zero_number members)) λ c_val.
        then-Ensures (Whenever IsCommand) _ (int_of (get_or "p" zero_number members)) λ p_val.
          then-Ensures (Whenever IsCommand) _ (int_of (get_or "port" zero_number members))
            λ port_val.
              bind-Ensures IsPositive (Whenever IsCommand) _ _ (resolve_duration_ms-Ensures _ _)
                λ duration_ms h. bcp_command-IsCommand b_flag c_val p_val port_val duration_ms h)

payload_command-Ensures :
    (web_servo : Fields) (outer : Option Fields) (is_bus : Bool) (servo_id position : Json)
    → Ensures (Whenever IsCommand) (payload_command web_servo outer is_bus servo_id position)
unfolding payload_command
payload_command-Ensures web_servo outer is_bus servo_id position =
    bind-Ensures IsPositive (Whenever IsCommand) _ _ (resolve_duration_ms-Ensures _ _)
      λ duration_ms h.
        bind-Ensures (λ n. is_bus ≡ true → IsPulse n) (Whenever IsCommand) _ _
          (position_of-Ensures is_bus position (payload_encoding web_servo outer) false)
          λ target k. then-Ensures (Whenever IsCommand) _ (int_of servo_id) λ id.
            then-Ensures (Whenever IsCommand) _ (int_of (get_or "port" zero_number web_servo))
              λ port. command_of-IsCommand is_bus id target duration_ms port k h

known_payload-Ensures :
    (web_servo : Fields) (outer : Option Fields) (is_bus : Option Bool)
    → Ensures (Whenever IsCommand) (known_payload web_servo outer is_bus)
unfolding known_payload
known_payload-Ensures web_servo outer none = tt
known_payload-Ensures web_servo outer (some is_bus) =
    either-Ensures (Whenever IsCommand)
      (is_null (get_or "servo_id" (get_value "channel" web_servo) web_servo)
        || is_null (get_or "position" (get_value "angle" web_servo) web_servo))
      (done none) _ (λ _. tt) (payload_command-Ensures web_servo outer is_bus _ _)

pub parse_web_servo_payload-Ensures :
    (web_servo : Json) (outer : Option Fields)
    → Ensures (Whenever IsCommand) (parse_web_servo_payload web_servo outer)
unfolding parse_web_servo_payload
parse_web_servo_payload-Ensures null outer = tt
parse_web_servo_payload-Ensures (flag b) outer = tt
parse_web_servo_payload-Ensures (whole_number n) outer = tt
parse_web_servo_payload-Ensures (float_number x) outer = tt
parse_web_servo_payload-Ensures (text s) outer = tt
parse_web_servo_payload-Ensures (array items) outer = tt
parse_web_servo_payload-Ensures (object web_servo) outer = catching-Ensures IsCommand _ (
    then-Ensures (Whenever IsCommand) _ (is_bus_payload web_servo outer)
      (known_payload-Ensures web_servo outer))

full_command-Ensures :
    (members : Fields) (b_flag : Option ℤ) (servo_id : ℤ) (found : Option (String × Json))
    → Ensures (Whenever IsCommand) (full_command members b_flag servo_id found)
unfolding full_command
full_command-Ensures members b_flag servo_id none = tt
full_command-Ensures members b_flag servo_id (some (key, position)) =
    then-Ensures (Whenever IsCommand) _ (int_of position) λ raw.
      bind-Ensures IsPositive (Whenever IsCommand) _ _ (resolve_duration_ms-Ensures _ _)
        λ duration_ms h.
          bind-Ensures (λ n. full_type b_flag members ≡ true → IsPulse n) (Whenever IsCommand) _ _
            (position_of-Ensures (full_type b_flag members) (whole_number raw) _ _)
            λ target k.
              then-Ensures (Whenever IsCommand) _ (int_of (get_or "port" zero_number members))
                λ port.
                  command_of-IsCommand (full_type b_flag members) servo_id target duration_ms port k
                    h

identified-Ensures :
    (members : Fields) (b_flag : Option ℤ) (found : Option (String × Json))
    → Ensures (Whenever IsCommand) (identified members b_flag found)
unfolding identified
identified-Ensures members b_flag none = tt
identified-Ensures members b_flag (some (key, servo_id)) =
    then-Ensures (Whenever IsCommand) _ (int_of servo_id)
      (λ id. full_command-Ensures members b_flag id _)

parse_full_format-Ensures :
    (members : Fields) → Ensures (Whenever IsCommand) (parse_full_format members)
unfolding parse_full_format
parse_full_format-Ensures members = catching-Ensures IsCommand _ (
    then-Ensures (Whenever IsCommand) _ (b_flag_of members)
      (λ b_flag. identified-Ensures members b_flag _))

or_older-Ensures :
    (parsed : Option ParsedCommand) (members : Fields)
    → Whenever IsCommand parsed
    → Ensures (Whenever IsCommand) (or_older parsed members)
unfolding or_older
or_older-Ensures (some command) members h = h
or_older-Ensures none members h =
    either-Ensures (Whenever IsCommand)
      (has_key "b" members && has_key "c" members && has_key "p" members) _ _
      (λ _. parse_bcp_protocol-Ensures members) (parse_full_format-Ensures members)

parse_top_level-Ensures :
    (members : Fields) → Ensures (Whenever IsCommand) (parse_top_level members)
unfolding parse_top_level
parse_top_level-Ensures members =
    either-Ensures (Whenever IsCommand)
      (any_key ("is_bus_servo" ∷ "servo_id" ∷ "position" ∷ []) members) _ _
      (λ _.
        bind-Ensures (Whenever IsCommand) (Whenever IsCommand) _ _
          (parse_web_servo_payload-Ensures (object members) none)
          (λ parsed h. or_older-Ensures parsed members h))
      (or_older-Ensures none members tt)

parse_servo_control-Ensures :
    (message : Json) → Ensures (Whenever IsCommand) (parse_servo_control message)
unfolding parse_servo_control
parse_servo_control-Ensures null = tt
parse_servo_control-Ensures (flag b) = tt
parse_servo_control-Ensures (whole_number n) = tt
parse_servo_control-Ensures (float_number x) = tt
parse_servo_control-Ensures (text s) = tt
parse_servo_control-Ensures (array items) = tt
parse_servo_control-Ensures (object members) =
    either-Ensures (Whenever IsCommand) (has_key "web_servo" members) _ _
      (λ _. parse_web_servo_payload-Ensures (get_value "web_servo" members) (some members))
      (parse_top_level-Ensures members)

-- A message that is read as a servo command, in any format, gives a command for a bus servo with a
-- pulse from 500 to 2500, or for a PCA channel, under the encoding of its kind, and with a duration
-- above zero.
pub parsed_commands_are_bounded :
    (message : Json) (command : ParsedCommand)
    → parse_servo_control message ≡ done (some command)
    → IsCommand command
parsed_commands_are_bounded message command h =
    subst (Ensures (Whenever IsCommand)) h (parse_servo_control-Ensures message)
