-- ===== src/Driver/Specs.antt =====
-- The tables of `_build_command_specs` and `_build_command_aliases`, and `_resolve_command`.
use mathlib.Core.Option
use robot_runtime.Prelude.{
  Bool, List, Option, String, [], false, if◌then◌else◌, is_empty, lower, nat_eq, none, some,
  string_eq, strip, true, ◌==◌, ◌∷◌,
}
use robot_runtime.SafetyLatch.Names.{remove_prefix, replace_char}

-- The methods that encode a command and decode its answer, and the one keyword argument that occurs,
-- `wait_mode=True`.
pub record Spec : Type 0 where
  pub encode : String
  pub decode : Option String
  pub wait_mode : Bool

abbrev pub writes : String → Spec
writes encode_name = record { encode = encode_name; decode = none; wait_mode = false }

abbrev pub reads : String → String → Spec
reads encode_name decode_name = record {
  encode = encode_name;
  decode = some decode_name;
  wait_mode = false;
}

abbrev pub waits : String → String → Spec
waits encode_name decode_name = record {
  encode = encode_name;
  decode = some decode_name;
  wait_mode = true;
}

abbrev pub lx_specs : List (String × Spec)
lx_specs =
    ("move_command", writes "encode_move_command")
    ∷ ("read_position_command", reads "encode_read_position_command" "decode_position_response")
    ∷ ("move_time_write", writes "encode_move_time_write")
    ∷ ("move_time_read", reads "encode_move_time_read" "decode_move_time_response")
    ∷ ("move_time_wait_write", writes "encode_move_time_wait_write")
    ∷ ("move_time_wait_read", waits "encode_move_time_wait_read" "decode_move_time_response")
    ∷ ("move_start", writes "encode_move_start")
    ∷ ("move_stop", writes "encode_move_stop")
    ∷ ("id_write", writes "encode_id_write")
    ∷ ("id_read", reads "encode_id_read" "decode_id_response")
    ∷ ("angle_offset_adjust", writes "encode_angle_offset_adjust")
    ∷ ("angle_offset_write", writes "encode_angle_offset_write")
    ∷ ("angle_offset_read", reads "encode_angle_offset_read" "decode_angle_offset_response")
    ∷ ("angle_limit_write", writes "encode_angle_limit_write")
    ∷ ("angle_limit_read", reads "encode_angle_limit_read" "decode_angle_limit_response")
    ∷ ("vin_limit_write", writes "encode_vin_limit_write")
    ∷ ("vin_limit_read", reads "encode_vin_limit_read" "decode_vin_limit_response")
    ∷ ("temp_max_limit_write", writes "encode_temp_max_limit_write")
    ∷ ("temp_max_limit_read", reads "encode_temp_max_limit_read" "decode_temp_max_limit_response")
    ∷ ("temp_read", reads "encode_temp_read" "decode_temp_response")
    ∷ ("vin_read", reads "encode_vin_read" "decode_vin_response")
    ∷ ("pos_read", reads "encode_pos_read" "decode_pos_response")
    ∷ ("or_motor_mode_write", writes "encode_or_motor_mode_write")
    ∷ ("or_motor_mode_read", reads "encode_or_motor_mode_read" "decode_or_motor_mode_response")
    ∷ ("load_or_unload_write", writes "encode_load_or_unload_write")
    ∷ ("torque_restore", writes "encode_torque_restore")
    ∷ ("torque_release", writes "encode_torque_release")
    ∷ ("torque_switch_compat_write", writes "encode_torque_switch_compat_write")
    ∷ ("torque_restore_compat", writes "encode_torque_restore_compat")
    ∷ ("torque_release_compat", writes "encode_torque_release_compat")
    ∷ ("load_or_unload_read", reads "encode_load_or_unload_read" "decode_load_or_unload_response")
    ∷ ("led_ctrl_write", writes "encode_led_ctrl_write")
    ∷ ("led_ctrl_read", reads "encode_led_ctrl_read" "decode_led_ctrl_response")
    ∷ ("led_error_write", writes "encode_led_error_write")
    ∷ ("led_error_read", reads "encode_led_error_read" "decode_led_error_response")
    ∷ ("dis_read", reads "encode_dis_read" "decode_dis_response")
    ∷ []

abbrev pub zl_specs : List (String × Spec)
zl_specs =
    ("move_command", writes "encode_move_command")
    ∷ ("read_position_command", reads "encode_read_position_command" "decode_position_response")
    ∷ ("version_read", reads "encode_version_read" "decode_version_response")
    ∷ ("id_read", reads "encode_id_read" "decode_id_response")
    ∷ ("id_write", writes "encode_id_write")
    ∷ ("torque_release", writes "encode_torque_release")
    ∷ ("torque_restore", writes "encode_torque_restore")
    ∷ ("mode_read", reads "encode_mode_read" "decode_mode_response")
    ∷ ("mode_write", writes "encode_mode_write")
    ∷ ("position_read", reads "encode_position_read" "decode_position_response")
    ∷ ("motion_pause", writes "encode_motion_pause")
    ∷ ("motion_continue", writes "encode_motion_continue")
    ∷ ("motion_stop", writes "encode_motion_stop")
    ∷ ("baudrate_write", writes "encode_baudrate_write")
    ∷ ("middle_calibrate", writes "encode_middle_calibrate")
    ∷ ("startup_position_set", writes "encode_startup_position_set")
    ∷ ("startup_position_disable", writes "encode_startup_position_disable")
    ∷ ("startup_position_restore", writes "encode_startup_position_restore")
    ∷ ("min_position_set", writes "encode_min_position_set")
    ∷ ("max_position_set", writes "encode_max_position_set")
    ∷ ("factory_reset", writes "encode_factory_reset")
    ∷ ("temp_voltage_read", reads "encode_temp_voltage_read" "decode_temp_voltage_response")
    ∷ []

abbrev pub lx_aliases : List (String × String)
lx_aliases =
    ("move", "move_command")
    ∷ ("read_position", "read_position_command")
    ∷ ("position_read", "pos_read")
    ∷ ("load_write", "load_or_unload_write")
    ∷ ("load_read", "load_or_unload_read")
    ∷ ("restore_torque", "torque_restore")
    ∷ ("release_torque", "torque_release")
    ∷ ("restore_torque_compat", "torque_restore_compat")
    ∷ ("release_torque_compat", "torque_release_compat")
    ∷ ("torque_switch_compat", "torque_switch_compat_write")
    ∷ []

abbrev pub zl_aliases : List (String × String)
zl_aliases =
    ("move", "move_command")
    ∷ ("send_position", "move_command")
    ∷ ("read_position", "read_position_command")
    ∷ ("get_version", "version_read")
    ∷ ("read_id", "id_read")
    ∷ ("set_id", "id_write")
    ∷ ("release_torque", "torque_release")
    ∷ ("restore_torque", "torque_restore")
    ∷ ("read_mode", "mode_read")
    ∷ ("set_mode", "mode_write")
    ∷ ("pause_motion", "motion_pause")
    ∷ ("continue_motion", "motion_continue")
    ∷ ("stop_motion", "motion_stop")
    ∷ ("set_baudrate", "baudrate_write")
    ∷ ("calibrate_middle", "middle_calibrate")
    ∷ ("set_startup_position", "startup_position_set")
    ∷ ("disable_startup_position", "startup_position_disable")
    ∷ ("restore_startup_position", "startup_position_restore")
    ∷ ("set_min_position", "min_position_set")
    ∷ ("set_max_position", "max_position_set")
    ∷ ("read_temp_voltage", "temp_voltage_read")
    ∷ []

-- `dict.get`
unfoldable pub lookup {ℓ} : {V : Type ℓ} → String → List (String × V) → Option V
lookup key [] = none
lookup key (entry ∷ entries) = if key == entry.0 then some entry.1 else lookup key entries

unfoldable pub normalize_command_name : String → String
unfolding replace_char remove_prefix strip lower
normalize_command_name command =
    remove_prefix "servo_" (
      remove_prefix "encode_" (replace_char " " "_" (replace_char "-" "_" (lower (strip command)))))

-- `self.command_specs.get(protocol, {})`, and the same for the aliases
unfoldable pub specs_of : String → List (String × Spec)
specs_of protocol = if protocol == "lx" then lx_specs else if protocol == "zl" then zl_specs else []

unfoldable pub aliases_of : String → List (String × String)
aliases_of protocol =
    if protocol == "lx" then lx_aliases else if protocol == "zl" then zl_aliases else []

-- The alias's name, where the key has an alias that is not empty.
unfoldable pub unaliased : String → Option String → String
unaliased key none = key
unaliased key (some alias) = if is_empty alias then key else alias

-- The name and the specification.
unfoldable pub resolve_command : String → String → Option (String × Spec)
unfolding lookup normalize_command_name specs_of aliases_of unaliased
resolve_command protocol command =
    let key = normalize_command_name command in
    let name = unaliased key (lookup key (aliases_of protocol)) in
    Option.map (λ spec. (name, spec)) (lookup name (specs_of protocol))
