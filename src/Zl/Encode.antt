-- ===== src/Zl/Encode.antt =====
-- `_sid`, `_format_command` and the encoders of `ZLBusServoProtocol`. A frame is the list of its bytes;
-- the texts are ASCII, so a byte is a code point.
use Prim.Native.Char.{code}
use Prim.Native.String as Text
use robot_runtime.Prelude.{List, String, [], ℕ, ◌%◌, ◌++◌, ◌+◌, ◌/◌, ◌∷◌}
use robot_runtime.Lx.Words.{clamp}
use robot_runtime.Prelude.Int.{ℤ}

unfoldable pub text_bytes : String → List ℕ
text_bytes Text.[] = []
text_bytes (Text.◌∷◌ c s) = code c ∷ text_bytes s

-- The digits of `f"{n:03d}"` and `f"{n:04d}"` for numbers that have no more.
unfoldable pub three_digits : ℕ → List ℕ
three_digits n = (48 + n / 100) ∷ (48 + n / 10 % 10) ∷ (48 + n % 10) ∷ []

unfoldable pub four_digits : ℕ → List ℕ
unfolding three_digits
four_digits n = (48 + n / 1000) ∷ three_digits (n % 1000)

unfoldable pub sid : ℤ → ℕ
unfolding clamp
sid servo_id = clamp 0 999 servo_id

-- `f"#{sid:03d}{body}!"`
unfoldable pub format_command : ℤ → List ℕ → List ℕ
unfolding text_bytes three_digits sid
format_command servo_id body =
    text_bytes "#" ++ (three_digits (sid servo_id) ++ (body ++ text_bytes "!"))

unfoldable pub move_body : ℕ → ℕ → List ℕ
unfolding text_bytes four_digits
move_body position speed =
    text_bytes "P" ++ (four_digits position ++ (text_bytes "T" ++ four_digits speed))

unfoldable pub zl_encode_move_command : ℤ → ℤ → ℤ → List ℕ
zl_encode_move_command servo_id position speed =
    format_command servo_id (move_body (clamp 0 9999 position) (clamp 0 9999 speed))

-- The encoders that only have an identifier.
unfoldable pub plain_command : String → ℤ → List ℕ
plain_command body servo_id = format_command servo_id (text_bytes body)

unfoldable pub zl_encode_id_write : ℤ → ℤ → List ℕ
zl_encode_id_write servo_id new_id =
    format_command servo_id (text_bytes "PID" ++ three_digits (sid new_id))

unfoldable pub zl_encode_mode_write : ℤ → ℤ → List ℕ
zl_encode_mode_write servo_id mode =
    format_command servo_id (text_bytes "PMOD" ++ ((48 + clamp 1 8 mode) ∷ []))

unfoldable pub zl_encode_baudrate_write : ℤ → ℤ → List ℕ
zl_encode_baudrate_write servo_id baudrate_code =
    format_command servo_id (text_bytes "PBD" ++ ((48 + clamp 1 8 baudrate_code) ∷ []))
