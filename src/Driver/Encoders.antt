-- ===== src/Driver/Encoders.antt =====
-- `getattr` of an encoder and `_call_with_checked_params`: an encoder takes the identifier and the
-- parameters of its signature, and `none` is the exception for another number of them. No encoder of the
-- tables has an optional parameter.
use robot_runtime.Prelude.{
  List, Option, String, [], if◌then◌else◌, nat_eq, none, some, string_eq, ℕ, ◌==◌, ◌∷◌,
}
use robot_runtime.Driver.Specs.{lookup}
use robot_runtime.Lx.Encode.{
  encode_angle_limit_write, encode_angle_offset_adjust, encode_angle_offset_write, encode_id_write,
  encode_led_ctrl_write, encode_led_error_write, encode_load_or_unload_write, encode_move_command,
  encode_move_start, encode_move_stop, encode_move_time_wait_write, encode_move_time_write,
  encode_or_motor_mode_write, encode_temp_max_limit_write, encode_torque_release,
  encode_torque_release_compat, encode_torque_restore, encode_torque_restore_compat,
  encode_torque_switch_compat_write, encode_vin_limit_write,
}
use robot_runtime.Lx.EncodeRead.{
  encode_angle_limit_read, encode_angle_offset_read, encode_dis_read, encode_id_read,
  encode_led_ctrl_read, encode_led_error_read, encode_load_or_unload_read, encode_move_time_read,
  encode_move_time_wait_read, encode_or_motor_mode_read, encode_pos_read,
  encode_read_position_command, encode_temp_max_limit_read, encode_temp_read, encode_vin_limit_read,
  encode_vin_read,
}
use robot_runtime.Prelude.Int.{ℤ}
use robot_runtime.Zl.Encode.{
  plain_command, zl_encode_baudrate_write, zl_encode_id_write, zl_encode_mode_write,
  zl_encode_move_command,
}

abbrev pub Encoder : Type 0
Encoder = ℤ → List ℤ → Option (List ℕ)

abbrev no_args : (ℤ → List ℕ) → Encoder
no_args f id [] = some (f id)
no_args f id (p ∷ params) = none

abbrev one_arg : (ℤ → ℤ → List ℕ) → Encoder
one_arg f id (a ∷ []) = some (f id a)
one_arg f id [] = none
one_arg f id (a ∷ b ∷ params) = none

abbrev two_args : (ℤ → ℤ → ℤ → List ℕ) → Encoder
two_args f id (a ∷ b ∷ []) = some (f id a b)
two_args f id [] = none
two_args f id (a ∷ []) = none
two_args f id (a ∷ b ∷ c ∷ params) = none

abbrev three_args : (ℤ → ℤ → ℤ → ℤ → List ℕ) → Encoder
three_args f id (a ∷ b ∷ c ∷ []) = some (f id a b c)
three_args f id [] = none
three_args f id (a ∷ []) = none
three_args f id (a ∷ b ∷ []) = none
three_args f id (a ∷ b ∷ c ∷ d ∷ params) = none

abbrev pub lx_encoders : List (String × Encoder)
lx_encoders =
    ("encode_move_command", two_args encode_move_command)
    ∷ ("encode_read_position_command", no_args encode_read_position_command)
    ∷ ("encode_move_time_write", two_args encode_move_time_write)
    ∷ ("encode_move_time_wait_write", two_args encode_move_time_wait_write)
    ∷ ("encode_move_start", no_args encode_move_start)
    ∷ ("encode_move_stop", no_args encode_move_stop)
    ∷ ("encode_id_write", one_arg encode_id_write)
    ∷ ("encode_angle_offset_adjust", one_arg encode_angle_offset_adjust)
    ∷ ("encode_angle_offset_write", no_args encode_angle_offset_write)
    ∷ ("encode_angle_limit_write", two_args encode_angle_limit_write)
    ∷ ("encode_vin_limit_write", two_args encode_vin_limit_write)
    ∷ ("encode_temp_max_limit_write", one_arg encode_temp_max_limit_write)
    ∷ ("encode_or_motor_mode_write", three_args encode_or_motor_mode_write)
    ∷ ("encode_load_or_unload_write", one_arg encode_load_or_unload_write)
    ∷ ("encode_torque_restore", no_args encode_torque_restore)
    ∷ ("encode_torque_release", no_args encode_torque_release)
    ∷ ("encode_torque_switch_compat_write", one_arg encode_torque_switch_compat_write)
    ∷ ("encode_torque_restore_compat", no_args encode_torque_restore_compat)
    ∷ ("encode_torque_release_compat", no_args encode_torque_release_compat)
    ∷ ("encode_led_ctrl_write", one_arg encode_led_ctrl_write)
    ∷ ("encode_led_error_write", one_arg encode_led_error_write)
    ∷ ("encode_move_time_read", no_args encode_move_time_read)
    ∷ ("encode_move_time_wait_read", no_args encode_move_time_wait_read)
    ∷ ("encode_id_read", no_args encode_id_read)
    ∷ ("encode_angle_offset_read", no_args encode_angle_offset_read)
    ∷ ("encode_angle_limit_read", no_args encode_angle_limit_read)
    ∷ ("encode_vin_limit_read", no_args encode_vin_limit_read)
    ∷ ("encode_temp_max_limit_read", no_args encode_temp_max_limit_read)
    ∷ ("encode_temp_read", no_args encode_temp_read)
    ∷ ("encode_vin_read", no_args encode_vin_read)
    ∷ ("encode_pos_read", no_args encode_pos_read)
    ∷ ("encode_or_motor_mode_read", no_args encode_or_motor_mode_read)
    ∷ ("encode_load_or_unload_read", no_args encode_load_or_unload_read)
    ∷ ("encode_led_ctrl_read", no_args encode_led_ctrl_read)
    ∷ ("encode_led_error_read", no_args encode_led_error_read)
    ∷ ("encode_dis_read", no_args encode_dis_read)
    ∷ []

abbrev pub zl_encoders : List (String × Encoder)
zl_encoders =
    ("encode_move_command", two_args zl_encode_move_command)
    ∷ ("encode_read_position_command", no_args (plain_command "PRAD"))
    ∷ ("encode_version_read", no_args (plain_command "PVER"))
    ∷ ("encode_id_read", no_args (plain_command "PID"))
    ∷ ("encode_id_write", one_arg zl_encode_id_write)
    ∷ ("encode_torque_release", no_args (plain_command "PULK"))
    ∷ ("encode_torque_restore", no_args (plain_command "PULR"))
    ∷ ("encode_mode_read", no_args (plain_command "PMOD"))
    ∷ ("encode_mode_write", one_arg zl_encode_mode_write)
    ∷ ("encode_position_read", no_args (plain_command "PRAD"))
    ∷ ("encode_motion_pause", no_args (plain_command "PDPT"))
    ∷ ("encode_motion_continue", no_args (plain_command "PDCT"))
    ∷ ("encode_motion_stop", no_args (plain_command "PDST"))
    ∷ ("encode_baudrate_write", one_arg zl_encode_baudrate_write)
    ∷ ("encode_middle_calibrate", no_args (plain_command "PSCK"))
    ∷ ("encode_startup_position_set", no_args (plain_command "PCSD"))
    ∷ ("encode_startup_position_disable", no_args (plain_command "PCSM"))
    ∷ ("encode_startup_position_restore", no_args (plain_command "PCSR"))
    ∷ ("encode_min_position_set", no_args (plain_command "PSMI"))
    ∷ ("encode_max_position_set", no_args (plain_command "PSMX"))
    ∷ ("encode_factory_reset", no_args (plain_command "PCLE"))
    ∷ ("encode_temp_voltage_read", no_args (plain_command "PRTV"))
    ∷ []

unfoldable pub encoder_of : String → String → Option Encoder
unfolding lookup
encoder_of protocol encode_name =
    lookup encode_name (if protocol == "lx" then lx_encoders else zl_encoders)
