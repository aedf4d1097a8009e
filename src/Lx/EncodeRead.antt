-- ===== src/Lx/EncodeRead.antt =====
-- The read commands: each asks for one value of a servo.
use robot_runtime.Prelude.{List, ℕ}
use robot_runtime.Lx.Commands.{
  cmd_angle_limit_read, cmd_angle_offset_read, cmd_dis_read, cmd_id_read, cmd_led_ctrl_read,
  cmd_led_error_read, cmd_load_or_unload_read, cmd_move_time_read, cmd_move_time_wait_read,
  cmd_or_motor_mode_read, cmd_pos_read, cmd_temp_max_limit_read, cmd_temp_read, cmd_vin_limit_read,
  cmd_vin_read,
}
use robot_runtime.Lx.Packet.{build_read_packet}
use robot_runtime.Prelude.Int.{ℤ}

unfoldable pub encode_move_time_read : ℤ → List ℕ
encode_move_time_read servo_id = build_read_packet servo_id cmd_move_time_read

unfoldable pub encode_move_time_wait_read : ℤ → List ℕ
encode_move_time_wait_read servo_id = build_read_packet servo_id cmd_move_time_wait_read

unfoldable pub encode_id_read : ℤ → List ℕ
encode_id_read servo_id = build_read_packet servo_id cmd_id_read

unfoldable pub encode_angle_offset_read : ℤ → List ℕ
encode_angle_offset_read servo_id = build_read_packet servo_id cmd_angle_offset_read

unfoldable pub encode_angle_limit_read : ℤ → List ℕ
encode_angle_limit_read servo_id = build_read_packet servo_id cmd_angle_limit_read

unfoldable pub encode_vin_limit_read : ℤ → List ℕ
encode_vin_limit_read servo_id = build_read_packet servo_id cmd_vin_limit_read

unfoldable pub encode_temp_max_limit_read : ℤ → List ℕ
encode_temp_max_limit_read servo_id = build_read_packet servo_id cmd_temp_max_limit_read

unfoldable pub encode_temp_read : ℤ → List ℕ
encode_temp_read servo_id = build_read_packet servo_id cmd_temp_read

unfoldable pub encode_vin_read : ℤ → List ℕ
encode_vin_read servo_id = build_read_packet servo_id cmd_vin_read

unfoldable pub encode_pos_read : ℤ → List ℕ
encode_pos_read servo_id = build_read_packet servo_id cmd_pos_read

unfoldable pub encode_or_motor_mode_read : ℤ → List ℕ
encode_or_motor_mode_read servo_id = build_read_packet servo_id cmd_or_motor_mode_read

unfoldable pub encode_load_or_unload_read : ℤ → List ℕ
encode_load_or_unload_read servo_id = build_read_packet servo_id cmd_load_or_unload_read

unfoldable pub encode_led_ctrl_read : ℤ → List ℕ
encode_led_ctrl_read servo_id = build_read_packet servo_id cmd_led_ctrl_read

unfoldable pub encode_led_error_read : ℤ → List ℕ
encode_led_error_read servo_id = build_read_packet servo_id cmd_led_error_read

unfoldable pub encode_dis_read : ℤ → List ℕ
encode_dis_read servo_id = build_read_packet servo_id cmd_dis_read

-- The base class's entry.
unfoldable pub encode_read_position_command : ℤ → List ℕ
encode_read_position_command servo_id = encode_pos_read servo_id
