-- ===== src/Lx/Decode.antt =====
-- What `LXBusServoProtocol` reads from answers. `none` is Python's `None`: no packet that fits has
-- come in yet. `min_len` holds back the packets that are too short, so a parameter that the code
-- indexes is there; `byte` gives 0 outside.
use mathlib.Core.Option
use robot_runtime.Prelude.{
  Bool, List, Option, [], if◌then◌else◌, leb, suc, zero, ℕ, ◌%◌, ◌*◌, ◌+◌, ◌^◌, ◌∷◌,
}
use robot_runtime.Lx.Commands.{
  cmd_angle_limit_read, cmd_angle_offset_read, cmd_dis_read, cmd_id_read, cmd_led_ctrl_read,
  cmd_led_error_read, cmd_load_or_unload_read, cmd_move_time_read, cmd_move_time_wait_read,
  cmd_or_motor_mode_read, cmd_pos_read, cmd_temp_max_limit_read, cmd_temp_read, cmd_vin_limit_read,
  cmd_vin_read,
}
use robot_runtime.Lx.Packet.{first_params}
use robot_runtime.Lx.Words.{join_u16, u16_to_i16}
use robot_runtime.Prelude.Int.{pos, sub_ℕ, ℤ}

abbrev byte : List ℕ → ℕ → ℕ
byte [] i = 0
byte (x ∷ xs) zero = x
byte (x ∷ xs) (suc i) = byte xs i

-- The words at two places.
abbrev word : List ℕ → ℕ → ℕ
word params i = join_u16 (byte params i) (byte params (suc i))

unfoldable pub decode_one : ℕ → List ℕ → Option ℤ → Option ℕ
decode_one cmd bytes expected =
    Option.map (λ p. byte p.params 0) (first_params bytes cmd expected 1)

unfoldable pub decode_word : ℕ → List ℕ → Option ℤ → Option ℕ
unfolding join_u16
decode_word cmd bytes expected =
    Option.map (λ p. word p.params 0) (first_params bytes cmd expected 2)

unfoldable pub decode_two_words : ℕ → List ℕ → Option ℤ → Option (ℕ × ℕ)
unfolding join_u16
decode_two_words cmd bytes expected =
    Option.map (λ p. (word p.params 0, word p.params 2)) (first_params bytes cmd expected 4)

unfoldable pub decode_move_time_response : List ℕ → Option ℤ → Bool → Option (ℕ × ℕ)
unfolding decode_two_words
decode_move_time_response bytes expected wait_mode =
    decode_two_words (if wait_mode then cmd_move_time_wait_read else cmd_move_time_read) bytes
      expected

unfoldable pub decode_id_response : List ℕ → Option ℤ → Option ℕ
unfolding decode_one
decode_id_response bytes expected = decode_one cmd_id_read bytes expected

-- `raw - 256 if raw >= 128 else raw`
unfoldable pub signed_byte : ℕ → ℤ
signed_byte raw = if leb 128 raw then sub_ℕ raw 256 else pos raw

unfoldable pub decode_angle_offset_response : List ℕ → Option ℤ → Option ℤ
unfolding decode_one signed_byte
decode_angle_offset_response bytes expected =
    Option.map signed_byte (decode_one cmd_angle_offset_read bytes expected)

unfoldable pub decode_angle_limit_response : List ℕ → Option ℤ → Option (ℕ × ℕ)
unfolding decode_two_words
decode_angle_limit_response bytes expected = decode_two_words cmd_angle_limit_read bytes expected

unfoldable pub decode_vin_limit_response : List ℕ → Option ℤ → Option (ℕ × ℕ)
unfolding decode_two_words
decode_vin_limit_response bytes expected = decode_two_words cmd_vin_limit_read bytes expected

unfoldable pub decode_temp_max_limit_response : List ℕ → Option ℤ → Option ℕ
unfolding decode_one
decode_temp_max_limit_response bytes expected = decode_one cmd_temp_max_limit_read bytes expected

unfoldable pub decode_temp_response : List ℕ → Option ℤ → Option ℕ
unfolding decode_one
decode_temp_response bytes expected = decode_one cmd_temp_read bytes expected

unfoldable pub decode_vin_response : List ℕ → Option ℤ → Option ℕ
unfolding decode_word
decode_vin_response bytes expected = decode_word cmd_vin_read bytes expected

unfoldable pub decode_pos_response : List ℕ → Option ℤ → Option ℤ
unfolding decode_word
decode_pos_response bytes expected = Option.map u16_to_i16 (decode_word cmd_pos_read bytes expected)

-- The base class's entry.
unfoldable pub decode_position_response : List ℕ → Option ℤ → Option ℤ
unfolding decode_pos_response
decode_position_response bytes expected = decode_pos_response bytes expected

-- The mode, the drive mode and the signed speed.
unfoldable pub decode_or_motor_mode_response : List ℕ → Option ℤ → Option (ℕ × ℕ × ℤ)
decode_or_motor_mode_response bytes expected =
    Option.map (λ p. (byte p.params 0, byte p.params 1, u16_to_i16 (word p.params 2)))
      (first_params bytes cmd_or_motor_mode_read expected 4)

unfoldable pub decode_load_or_unload_response : List ℕ → Option ℤ → Option ℕ
unfolding decode_one
decode_load_or_unload_response bytes expected = decode_one cmd_load_or_unload_read bytes expected

unfoldable pub decode_led_ctrl_response : List ℕ → Option ℤ → Option ℕ
unfolding decode_one
decode_led_ctrl_response bytes expected = decode_one cmd_led_ctrl_read bytes expected

unfoldable pub decode_led_error_response : List ℕ → Option ℤ → Option ℕ
unfolding decode_one
decode_led_error_response bytes expected = decode_one cmd_led_error_read bytes expected

-- Four bytes without a sign, low byte first.
unfoldable pub decode_dis_response : List ℕ → Option ℤ → Option ℕ
decode_dis_response bytes expected =
    Option.map
      (λ p.
        byte p.params 0 % 256
        + byte p.params 1 % 256 * 2 ^ 8
        + byte p.params 2 % 256 * 2 ^ 16
        + byte p.params 3 % 256 * 2 ^ 24)
      (first_params bytes cmd_dis_read expected 4)
