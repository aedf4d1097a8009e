-- ===== src/Lx/Tests.antt =====
-- The LX theorems at concrete bytes.
use robot_runtime.Prelude.{List, [], arith, refl, some, ℕ, ◌++◌, ◌∷◌, ◌≡◌}
use robot_runtime.Lx.Answers.{position_round_trip, word_bytes}
use robot_runtime.Lx.Commands.{cmd_pos_read}
use robot_runtime.Lx.Decode.{decode_pos_response}
use robot_runtime.Lx.Frames.{IsFound, first_params_sound}
use robot_runtime.Lx.Packet.{Packet, build_packet, first_params}
use robot_runtime.Lx.Words.{i16_to_u16}
use robot_runtime.Prelude.Int.{negsuc, pos}

-- A stray byte, and an answer of servo 5 with the position 500.
abbrev answer_bytes : List ℕ
answer_bytes = 1 ∷ 0x55 ∷ 0x55 ∷ 5 ∷ 5 ∷ 28 ∷ 0xF4 ∷ 1 ∷ 228 ∷ []

abbrev answer_packet : Packet
answer_packet = record { sid = 5; cmd = 28; params = 0xF4 ∷ 1 ∷ [] }

first_params_sound_example : IsFound answer_bytes 28 (some (pos 5)) 2 answer_packet
unfolding first_params
first_params_sound_example = first_params_sound answer_bytes 28 (some (pos 5)) 2 answer_packet refl

position_round_trip_example :
    decode_pos_response
      ((1 ∷ [])
        ++ (build_packet (pos 5) cmd_pos_read (word_bytes (i16_to_u16 (negsuc 41))) ++ (9 ∷ [])))
      (some (pos 5))
    ≡ some (negsuc 41)
position_round_trip_example =
    position_round_trip (1 ∷ []) 5 (negsuc 41) (9 ∷ []) (omega arith, tt) (omega arith)
      (omega arith) (omega arith)
