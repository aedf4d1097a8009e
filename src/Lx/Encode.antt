-- ===== src/Lx/Encode.antt =====
-- The write and read commands of `LXBusServoProtocol`. An argument is a Python integer; it is
-- clamped or masked as in the code.
use robot_runtime.Prelude.{List, [], if◌then◌else◌, ltb, suc, zero, ℕ, ◌∷◌}
use robot_runtime.Lx.Commands.{
  cmd_angle_limit_write, cmd_angle_offset_adjust, cmd_angle_offset_write, cmd_id_write,
  cmd_led_ctrl_write, cmd_led_error_write, cmd_load_or_unload_write, cmd_move_start, cmd_move_stop,
  cmd_move_time_wait_write, cmd_move_time_write, cmd_or_motor_mode_write, cmd_temp_max_limit_write,
  cmd_torque_switch_compat_write, cmd_vin_limit_write,
}
use robot_runtime.Lx.Packet.{build_packet}
use robot_runtime.Lx.Words.{clamp, i16_to_u16, split_u16, u8}
use robot_runtime.Prelude.Int.{max_ℤ, min_ℤ, negsuc, pos, ℤ}

-- `1 if int(value) else 0`
unfoldable pub flag : ℤ → ℕ
flag (pos zero) = 0
flag (pos (suc n)) = 1
flag (negsuc n) = 1

-- Two words, low byte first.
unfoldable pub two_words : ℕ → ℕ → List ℕ
unfolding split_u16
two_words a b = (split_u16 a).0 ∷ (split_u16 a).1 ∷ (split_u16 b).0 ∷ (split_u16 b).1 ∷ []

unfoldable pub encode_move_time_write : ℤ → ℤ → ℤ → List ℕ
encode_move_time_write servo_id position time_ms =
    build_packet servo_id cmd_move_time_write
      (two_words (clamp 0 1000 position) (clamp 0 30000 time_ms))

-- The base class's entry: the speed is taken for the time.
unfoldable pub encode_move_command : ℤ → ℤ → ℤ → List ℕ
unfolding encode_move_time_write
encode_move_command servo_id position speed = encode_move_time_write servo_id position speed

unfoldable pub encode_move_time_wait_write : ℤ → ℤ → ℤ → List ℕ
encode_move_time_wait_write servo_id position time_ms =
    build_packet servo_id cmd_move_time_wait_write
      (two_words (clamp 0 1000 position) (clamp 0 30000 time_ms))

unfoldable pub encode_move_start : ℤ → List ℕ
encode_move_start servo_id = build_packet servo_id cmd_move_start []

unfoldable pub encode_move_stop : ℤ → List ℕ
encode_move_stop servo_id = build_packet servo_id cmd_move_stop []

unfoldable pub encode_id_write : ℤ → ℤ → List ℕ
encode_id_write servo_id new_id = build_packet servo_id cmd_id_write (clamp 0 253 new_id ∷ [])

-- `max(-125, min(125, int(offset)))`
unfoldable pub clamp_offset : ℤ → ℤ
clamp_offset offset = max_ℤ (negsuc 124) (min_ℤ (pos 125) offset)

unfoldable pub encode_angle_offset_adjust : ℤ → ℤ → List ℕ
encode_angle_offset_adjust servo_id offset =
    build_packet servo_id cmd_angle_offset_adjust (u8 (clamp_offset offset) ∷ [])

unfoldable pub encode_angle_offset_write : ℤ → List ℕ
encode_angle_offset_write servo_id = build_packet servo_id cmd_angle_offset_write []

-- `if low > high: low, high = high, low`
unfoldable pub ordered_words : ℕ → ℕ → List ℕ
ordered_words low high = if ltb high low then two_words high low else two_words low high

unfoldable pub encode_angle_limit_write : ℤ → ℤ → ℤ → List ℕ
encode_angle_limit_write servo_id min_pos max_pos =
    build_packet servo_id cmd_angle_limit_write
      (ordered_words (clamp 0 1000 min_pos) (clamp 0 1000 max_pos))

unfoldable pub encode_vin_limit_write : ℤ → ℤ → ℤ → List ℕ
encode_vin_limit_write servo_id min_mv max_mv =
    build_packet servo_id cmd_vin_limit_write
      (ordered_words (clamp 4500 14000 min_mv) (clamp 4500 14000 max_mv))

unfoldable pub encode_temp_max_limit_write : ℤ → ℤ → List ℕ
encode_temp_max_limit_write servo_id temp_c =
    build_packet servo_id cmd_temp_max_limit_write (clamp 50 100 temp_c ∷ [])

unfoldable pub encode_or_motor_mode_write : ℤ → ℤ → ℤ → ℤ → List ℕ
encode_or_motor_mode_write servo_id mode drive_mode speed =
    let (low, high) = split_u16 (i16_to_u16 speed) in
    build_packet servo_id cmd_or_motor_mode_write (flag mode ∷ flag drive_mode ∷ low ∷ high ∷ [])

unfoldable pub encode_load_or_unload_write : ℤ → ℤ → List ℕ
encode_load_or_unload_write servo_id load =
    build_packet servo_id cmd_load_or_unload_write (flag load ∷ [])

unfoldable pub encode_torque_restore : ℤ → List ℕ
encode_torque_restore servo_id = encode_load_or_unload_write servo_id (pos 1)

unfoldable pub encode_torque_release : ℤ → List ℕ
encode_torque_release servo_id = encode_load_or_unload_write servo_id (pos 0)

unfoldable pub encode_torque_switch_compat_write : ℤ → ℤ → List ℕ
encode_torque_switch_compat_write servo_id load =
    build_packet servo_id cmd_torque_switch_compat_write (flag load ∷ [])

unfoldable pub encode_torque_restore_compat : ℤ → List ℕ
encode_torque_restore_compat servo_id = encode_torque_switch_compat_write servo_id (pos 1)

unfoldable pub encode_torque_release_compat : ℤ → List ℕ
encode_torque_release_compat servo_id = encode_torque_switch_compat_write servo_id (pos 0)

unfoldable pub encode_led_ctrl_write : ℤ → ℤ → List ℕ
encode_led_ctrl_write servo_id led_off =
    build_packet servo_id cmd_led_ctrl_write (flag led_off ∷ [])

unfoldable pub encode_led_error_write : ℤ → ℤ → List ℕ
encode_led_error_write servo_id mask =
    build_packet servo_id cmd_led_error_write (clamp 0 7 mask ∷ [])
