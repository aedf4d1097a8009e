-- ===== src/Zl/Tests.antt =====
-- The decoders of the text protocol on concrete answers.
use robot_runtime.Prelude.{arith, none, refl, some, true, ◌++◌, ◌≡◌, ◌∷◌, []}
use robot_runtime.Prelude.Int.{negsuc, pos}
use robot_runtime.Zl.Decode.{
  zl_decode_id_response, zl_decode_mode_response, zl_decode_ok_response,
  zl_decode_position_response, zl_decode_version_response, zl_decode_temp_voltage_response,
}
use robot_runtime.Zl.Echo.{answer_is_read, position_answer}
use robot_runtime.Zl.Encode.{plain_command, text_bytes, zl_encode_move_command}
use robot_runtime.Zl.Unicode.{decode_utf8, digit_value, ready}

negative_position :
    zl_decode_position_response (some (pos 7)) (text_bytes "#001P12!#007P-35!") ≡ some (negsuc 34)
unfolding zl_decode_position_response digit_value
negative_position = refl

too_many_digits : zl_decode_position_response none (text_bytes "#001P123456!") ≡ none
unfolding zl_decode_position_response digit_value
too_many_digits = refl

id_read : zl_decode_id_response none (text_bytes "x#12#012P!") ≡ some 12
unfolding zl_decode_id_response digit_value
id_read = refl

version_read :
    zl_decode_version_response (some (pos 3)) (text_bytes "#003PV1.2!") ≡ some (text_bytes "1.2")
unfolding zl_decode_version_response digit_value
version_read = refl

mode_read : zl_decode_mode_response none (text_bytes "#003PMOD9!#004PMOD8!") ≡ some 8
unfolding zl_decode_mode_response digit_value
mode_read = refl

temp_voltage_read :
    zl_decode_temp_voltage_response none (text_bytes "#001T25.V7!#002T-25.50V7!")
    ≡ some (text_bytes "-25.50", text_bytes "7")
unfolding zl_decode_temp_voltage_response digit_value
temp_voltage_read = refl

ok_read : zl_decode_ok_response (text_bytes "?#OK!") ≡ true
unfolding zl_decode_ok_response
ok_read = refl

-- `b"\xe2\x82\xac\xff\xe2\x82A\xed\xa0\x80"` gives the euro sign and the letter.
malformed :
    decode_utf8 ready (0xe2 ∷ 0x82 ∷ 0xac ∷ 0xff ∷ 0xe2 ∷ 0x82 ∷ 0x41 ∷ 0xed ∷ 0xa0 ∷ 0x80 ∷ [])
    ≡ 0x20ac ∷ 0x41 ∷ []
unfolding decode_utf8
malformed = refl

answer_is_read_example :
    let answer = position_answer 7 1500 (text_bytes "#0") in
    let read = zl_decode_position_response (some (pos 7)) in
    (read answer ≡ some (pos 1500))
    × (read (zl_encode_move_command (pos 7) (pos 2000) (pos 300) ++ answer) ≡ some (pos 1500))
    × (read (plain_command "PRAD" (pos 7) ++ answer) ≡ some (pos 1500))
answer_is_read_example =
    answer_is_read 7 1500 (pos 7) (pos 2000) (pos 300) (text_bytes "#0") (omega arith) (omega arith)
