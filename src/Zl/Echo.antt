-- ===== src/Zl/Echo.antt =====
-- The line of a servo carries what is sent on it too, so an answer may stand behind the echo of a command.
use robot_runtime.Prelude.{
  All, All-append, List, Option, [], arith, false, ltb, nat_eq, none, refl, some, sym, true, ℕ,
  ◌++◌, ◌+◌, ◌==◌, ◌∙◌, ◌≡◌, ◌≤◌, ◌∷◌, ap,
}
use robot_runtime.Prelude.Int.{int_eq, pos, ℤ}
use robot_runtime.Lx.Words.{clamp}
use robot_runtime.Zl.Decode.{
  attempt, decode_response, digit, find_matches, first_for, is_other, literal, minus, position_at,
  position_group, taken, up_to_five, zl_decode_position_response,
}
use robot_runtime.Zl.Encode.{
  format_command, four_digits, move_body, plain_command, sid, text_bytes, three_digits,
  zl_encode_move_command,
}
use robot_runtime.Zl.Unicode.{decode_utf8, digit_value, ready}
use robot_runtime.Zl.Scanned.{decode_utf8-ascii, miss, skip_over, three_read, group_read}
use robot_runtime.Zl.Frames.{
  sid_fits, clamp_fits, tail_of, three-All, four-All, frame-All, move-All,
}

-- The answer of a servo to a position request, and what follows it.
abbrev pub position_answer : ℕ → ℕ → List ℕ → List ℕ
position_answer id position rest =
    text_bytes "#"
    ++ (three_digits id ++ (text_bytes "P" ++ (four_digits position ++ (text_bytes "!" ++ rest))))

mark_ends : digit_value 33 ≡ none
unfolding digit_value
mark_ends = refl

letter_ends : digit_value 84 ≡ none
unfolding digit_value
letter_ends = refl

module _ (id position : ℕ) (rest : List ℕ) (h : id ≤ 999) (k : position ≤ 9999) where
  answer_matches : position_at (position_answer id position rest) ≡ some ((id, pos position), rest)
  unfolding position_at literal text_bytes
  answer_matches =
      rw
        (
          three_read id (80 ∷ (four_digits position ++ (33 ∷ rest))) h,
          group_read position 33 rest k mark_ends,
        )
        refl

  move_misses :
      (speed : ℕ)
      → position_at (35 ∷ (three_digits id ++ (move_body position speed ++ rest))) ≡ none
  unfolding position_at literal text_bytes move_body four_digits three_digits
  move_misses speed =
      rw
        (
          three_read id (80 ∷ (four_digits position ++ (84 ∷ (four_digits speed ++ rest)))) h,
          group_read position 84 (four_digits speed ++ rest) k letter_ends,
        )
        refl

read_misses :
    (id : ℕ) (rest : List ℕ)
    → id ≤ 999
    → position_at (35 ∷ (three_digits id ++ (text_bytes "PRAD!" ++ rest))) ≡ none
unfolding position_at literal text_bytes position_group minus up_to_five digit digit_value
read_misses id rest h = rw (three_read id (text_bytes "PRAD!" ++ rest) h) refl

abbrev IsAscii : ℕ → Type 0
IsAscii c = ltb c 0x80 ≡ true

abbrev IsNoSign : ℕ → Type 0
IsNoSign c = (35 == c) ≡ false

digit-IsAscii : (d : ℕ) → d ≤ 9 → IsAscii (48 + d)
digit-IsAscii d h = ground arith

digit-IsNoSign : (d : ℕ) → d ≤ 9 → IsNoSign (48 + d)
digit-IsNoSign d h = ground arith

decode_any :
    (expected : Option ℤ) (bytes : List ℕ)
    → zl_decode_position_response expected bytes
      ≡ first_for expected (find_matches position_at 0 (decode_utf8 ready bytes))
unfolding zl_decode_position_response decode_response find_matches first_for decode_utf8
decode_any expected [] = refl
decode_any expected (b ∷ bs) = refl

-- An echo of a frame that the pattern does not match is passed over.
skipped :
    (expected : Option ℤ) (servo_id : ℤ) (body rest : List ℕ)
    → All IsAscii body
    → All IsNoSign body
    → ((text : List ℕ)
        → position_at (35 ∷ (three_digits (sid servo_id) ++ ((body ++ text_bytes "!") ++ text)))
          ≡ none)
    → zl_decode_position_response expected (format_command servo_id body ++ rest)
      ≡ zl_decode_position_response expected rest
unfolding format_command text_bytes three_digits
skipped expected servo_id body rest ascii clear h =
    let tail = tail_of servo_id body in
    let text = decode_utf8 ready rest in
    let read =
      decode_utf8-ascii (35 ∷ tail) rest
        (refl, frame-All IsAscii digit-IsAscii refl servo_id body ascii) in
    let passed =
      miss 35 (tail ++ text) (h text)
      ∙ skip_over tail text (frame-All IsNoSign digit-IsNoSign refl servo_id body clear) in
    decode_any expected (35 ∷ (tail ++ rest))
    ∙ ap (λ t. first_for expected (find_matches position_at 0 t)) read
    ∙ ap (first_for expected) passed
    ∙ sym (decode_any expected rest)

move_echo_misses :
    (servo_id : ℤ) (position speed : ℕ)
    → position ≤ 9999
    → (text : List ℕ)
    → position_at (
        35
        ∷ (three_digits (sid servo_id) ++ ((move_body position speed ++ text_bytes "!") ++ text)))
      ≡ none
unfolding move_body four_digits three_digits text_bytes
move_echo_misses servo_id position speed h text =
    move_misses (sid servo_id) position (33 ∷ text) (sid_fits servo_id) h speed

-- The echo of a command that moves a servo, or asks for its position, is never read as an answer: a
-- position is decoded from what follows the echo as if that stood alone.
echoes_are_skipped :
    (expected : Option ℤ) (servo_id position speed : ℤ) (rest : List ℕ)
    → (zl_decode_position_response expected (zl_encode_move_command servo_id position speed ++ rest)
        ≡ zl_decode_position_response expected rest)
      × (zl_decode_position_response expected (plain_command "PRAD" servo_id ++ rest)
          ≡ zl_decode_position_response expected rest)
unfolding zl_encode_move_command plain_command text_bytes
echoes_are_skipped expected servo_id position speed rest =
    let p = clamp 0 9999 position in
    let s = clamp 0 9999 speed in
    (
      skipped expected servo_id (move_body p s) rest
          (move-All IsAscii digit-IsAscii refl refl p s (clamp_fits position) (clamp_fits speed))
          (move-All IsNoSign digit-IsNoSign refl refl p s (clamp_fits position) (clamp_fits speed))
          (move_echo_misses servo_id p s (clamp_fits position)),
      skipped expected servo_id (text_bytes "PRAD") rest (refl, (refl, (refl, (refl, tt))))
          (refl, (refl, (refl, (refl, tt))))
          (λ text. read_misses (sid servo_id) text (sid_fits servo_id)),
    )

-- The bytes of an answer are its text.
answer_text :
    (id position : ℕ) (rest : List ℕ)
    → id ≤ 999
    → position ≤ 9999
    → decode_utf8 ready (position_answer id position rest)
      ≡ position_answer id position (decode_utf8 ready rest)
unfolding text_bytes three_digits four_digits
answer_text id position rest h k =
    decode_utf8-ascii (35 ∷ (three_digits id ++ (80 ∷ (four_digits position ++ (33 ∷ []))))) rest (
      refl,
      All-append IsAscii (three_digits id) (80 ∷ (four_digits position ++ (33 ∷ [])))
          (three-All IsAscii digit-IsAscii id h)
          (
            refl,
            All-append IsAscii (four_digits position) (33 ∷ [])
                (four-All IsAscii digit-IsAscii position k) (refl, tt),
          ),
    )

own_answer : (id : ℕ) → is_other (some (pos id)) id ≡ false
unfolding is_other
own_answer id = ground arith

answer_is_first :
    (id position : ℕ) (text : List ℕ)
    → id ≤ 999
    → position ≤ 9999
    → first_for (some (pos id)) (find_matches position_at 0 (position_answer id position text))
      ≡ some (pos position)
unfolding find_matches attempt text_bytes first_for
answer_is_first id position text h k =
    rw (answer_matches id position text h k, taken, own_answer id) refl

-- The position that a servo answers, at most 9999 in four digits behind an identifier of at most 999 in
-- three, is what is decoded for that servo, whatever bytes follow the answer, and also when the answer
-- stands behind the echo of a move or of a request for a position, to any servo.
pub answer_is_read :
    (id position : ℕ) (servo_id goal speed : ℤ) (rest : List ℕ)
    → id ≤ 999
    → position ≤ 9999
    → let answer = position_answer id position rest in
      let read = zl_decode_position_response (some (pos id)) in
      (read answer ≡ some (pos position))
      × (read (zl_encode_move_command servo_id goal speed ++ answer) ≡ some (pos position))
      × (read (plain_command "PRAD" servo_id ++ answer) ≡ some (pos position))
answer_is_read id position servo_id goal speed rest h k =
    let answer = position_answer id position rest in
    let alone =
      decode_any (some (pos id)) answer
      ∙ ap (λ t. first_for (some (pos id)) (find_matches position_at 0 t))
          (answer_text id position rest h k)
      ∙ answer_is_first id position (decode_utf8 ready rest) h k in
    let echoes = echoes_are_skipped (some (pos id)) servo_id goal speed answer in
    (alone, echoes.0 ∙ alone, echoes.1 ∙ alone)
