-- ===== src/Teleop/Parse.antt =====
-- message_handler.py: servo commands in their four formats. `Run (Option ...)` is what a parser returns:
-- `none` is Python's `None`, and an `OverflowError` is not caught. The field `speed` of the result is its
-- `duration_ms`, and is left out.
use robot_runtime.Prelude.{
  Bool, Option, String, false, if◌then◌else◌, is_empty, none, not, some, string_eq, true, ℕ, ◌&&◌,
  ◌*◌, ◌+◌, ◌/◌, ◌==◌,
}
use robot_runtime.Driver.Convert.{round_div}
use robot_runtime.Lx.Words.{clamp}
use robot_runtime.Motion.Float.{finite}
use robot_runtime.Prelude.Int.{int_eq, leb_ℤ, ltb_ℤ, negsuc, pos, pos_part, ℤ, ◌+ℤ◌}
use robot_runtime.Teleop.Json.{
  Fields, Json, Run, array, done, field, flag, float_number, get_or, get_value, int_of, item,
  empty_object, empty_array, null, object, overflowed, refused, text, whole_number, ◌>>=◌,
}

pub record ParsedCommand : Type 0 where
  pub servo_type : String
  pub servo_id : ℤ
  pub position : ℤ
  pub value_encoding : String
  pub duration_ms : ℤ
  pub port : ℤ

-- Python's truth value.
unfoldable pub is_true : Json → Bool
is_true null = false
is_true (flag b) = b
is_true (whole_number n) = not (n == pos 0)
is_true (float_number (finite n)) = not (n == pos 0)
is_true (float_number _) = true
is_true (text s) = not (is_empty s)
is_true (array empty_array) = false
is_true (array (item _ _)) = true
is_true (object empty_object) = false
is_true (object (field _ _ _)) = true

-- One candidate of `_resolve_duration_ms`: `none` where the loop goes on.
unfoldable pub positive_of : Run ℤ → Run (Option ℤ)
positive_of (done n) = done (if ltb_ℤ (pos 0) n then some n else none)
positive_of refused = done none
positive_of overflowed = overflowed

unfoldable pub first_positive : Option ℤ → Run (Option ℤ) → Run (Option ℤ)
first_positive none next = next
first_positive (some n) next = done (some n)

abbrev pub default_duration : Option ℤ → Run ℤ
default_duration none = done (pos 100)
default_duration (some n) = done n

unfoldable pub resolve_duration_ms : Json → Json → Run ℤ
unfolding positive_of first_positive
resolve_duration_ms duration_ms speed =
    positive_of (int_of duration_ms)
    >>= (λ first. first_positive first (positive_of (int_of speed)))
    >>= default_duration

-- Both conversions of angles give the same whole numbers as the code's floats, for every whole angle
-- within their ranges.
unfoldable pub centered_angle_to_us : ℤ → ℕ
unfolding round_div clamp
centered_angle_to_us angle = round_div (500 * 180 + clamp 0 180 (angle +ℤ pos 90) * 2000) 180

unfoldable pub angle_to_us : ℕ → ℕ
unfolding clamp
angle_to_us angle = clamp 500 2500 (pos ((500 * 180 + angle * 2000) / 180))

abbrev pub within_range : ℤ → ℤ → ℤ → Bool
within_range lo hi n = leb_ℤ lo n && leb_ℤ n hi

unfoldable pub normalize_bus_position : ℤ → String → Bool → Run ℤ
normalize_bus_position raw_position encoding treat_as_raw =
    if encoding == "bus_pulse_us"
    then (if within_range (pos 500) (pos 2500) raw_position then done raw_position else refused)
    else if treat_as_raw
    then done (pos (clamp 500 2500 raw_position))
    else if within_range (pos 500) (pos 2500) raw_position
    then done raw_position
    else if within_range (pos 0) (pos 180) raw_position
    then done (pos (angle_to_us (pos_part raw_position)))
    else if leb_ℤ (negsuc 89) raw_position && ltb_ℤ raw_position (pos 0)
    then done (pos (centered_angle_to_us raw_position))
    else refused

-- `except (ValueError, TypeError)`
abbrev pub catching {ℓ} : {A : Type ℓ} → Run (Option A) → Run (Option A)
catching (done a) = done a
catching refused = done none
catching overflowed = overflowed

abbrev pub zero_number : Json
zero_number = whole_number (pos 0)

unfoldable pub bcp_command : ℤ → ℤ → ℤ → ℤ → ℤ → Option ParsedCommand
bcp_command b_flag c_val p_val port_val duration_ms =
    if b_flag == negsuc 0
    then some (record {
      servo_type = "bus";
      servo_id = c_val;
      position = pos (clamp 500 2500 p_val);
      value_encoding = "bus_pulse_us";
      duration_ms = duration_ms;
      port = port_val;
    })
    else if b_flag == pos 0
    then some (record {
      servo_type = "pca";
      servo_id = c_val;
      position = p_val;
      value_encoding = "pca_tick";
      duration_ms = duration_ms;
      port = pos 0;
    })
    else none

unfoldable pub parse_bcp_protocol : Fields → Run (Option ParsedCommand)
unfolding bcp_command
parse_bcp_protocol fields = catching (
    int_of (get_or "b" zero_number fields) >>= λ b_flag.
    int_of (get_or "c" zero_number fields) >>= λ c_val.
    int_of (get_or "p" zero_number fields) >>= λ p_val.
    int_of (get_or "port" zero_number fields) >>= λ port_val.
    resolve_duration_ms (get_value "duration_ms" fields) (get_value "s" fields) >>= λ duration_ms.
    done (bcp_command b_flag c_val p_val port_val duration_ms))
