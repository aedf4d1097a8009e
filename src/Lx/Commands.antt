-- ===== src/Lx/Commands.antt =====
-- The command bytes of `LXBusServoProtocol`.
use robot_runtime.Prelude.{ℕ}

abbrev pub cmd_move_time_write : ℕ
cmd_move_time_write = 0x01

abbrev pub cmd_move_time_wait_write : ℕ
cmd_move_time_wait_write = 0x07

abbrev pub cmd_move_start : ℕ
cmd_move_start = 0x0B

abbrev pub cmd_move_stop : ℕ
cmd_move_stop = 0x0C

abbrev pub cmd_id_write : ℕ
cmd_id_write = 0x0D

abbrev pub cmd_angle_offset_adjust : ℕ
cmd_angle_offset_adjust = 0x11

abbrev pub cmd_angle_offset_write : ℕ
cmd_angle_offset_write = 0x12

abbrev pub cmd_angle_limit_write : ℕ
cmd_angle_limit_write = 0x14

abbrev pub cmd_vin_limit_write : ℕ
cmd_vin_limit_write = 0x16

abbrev pub cmd_temp_max_limit_write : ℕ
cmd_temp_max_limit_write = 0x18

abbrev pub cmd_or_motor_mode_write : ℕ
cmd_or_motor_mode_write = 0x1D

abbrev pub cmd_load_or_unload_write : ℕ
cmd_load_or_unload_write = 0x1F

abbrev pub cmd_torque_switch_compat_write : ℕ
cmd_torque_switch_compat_write = 0x1E

abbrev pub cmd_led_ctrl_write : ℕ
cmd_led_ctrl_write = 0x21

abbrev pub cmd_led_error_write : ℕ
cmd_led_error_write = 0x23

abbrev pub cmd_move_time_read : ℕ
cmd_move_time_read = 0x02

abbrev pub cmd_move_time_wait_read : ℕ
cmd_move_time_wait_read = 0x08

abbrev pub cmd_id_read : ℕ
cmd_id_read = 0x0E

abbrev pub cmd_angle_offset_read : ℕ
cmd_angle_offset_read = 0x13

abbrev pub cmd_angle_limit_read : ℕ
cmd_angle_limit_read = 0x15

abbrev pub cmd_vin_limit_read : ℕ
cmd_vin_limit_read = 0x17

abbrev pub cmd_temp_max_limit_read : ℕ
cmd_temp_max_limit_read = 0x19

abbrev pub cmd_temp_read : ℕ
cmd_temp_read = 0x1A

abbrev pub cmd_vin_read : ℕ
cmd_vin_read = 0x1B

abbrev pub cmd_pos_read : ℕ
cmd_pos_read = 0x1C

abbrev pub cmd_or_motor_mode_read : ℕ
cmd_or_motor_mode_read = 0x1E

abbrev pub cmd_load_or_unload_read : ℕ
cmd_load_or_unload_read = 0x20

abbrev pub cmd_led_ctrl_read : ℕ
cmd_led_ctrl_read = 0x22

abbrev pub cmd_led_error_read : ℕ
cmd_led_error_read = 0x24

abbrev pub cmd_dis_read : ℕ
cmd_dis_read = 0x30
