-- ===== src/Zl/Frames.antt =====
-- What holds of all bytes of a frame.
use robot_runtime.Prelude.{
  All, All-append, List, [], arith, nat_eq, ℕ, ◌%◌, ◌++◌, ◌+◌, ◌/◌, ◌≤◌, ◌∷◌,
}
use robot_runtime.Prelude.Int.{int_eq, ℤ}
use robot_runtime.Lx.Words.{clamp}
use robot_runtime.Zl.Encode.{four_digits, move_body, sid, text_bytes, three_digits}

pub sid_fits : (servo_id : ℤ) → sid servo_id ≤ 999
unfolding sid clamp
sid_fits servo_id = ground arith

pub clamp_fits : (n : ℤ) → clamp 0 9999 n ≤ 9999
unfolding clamp
clamp_fits n = ground arith

-- What follows the first sign of a frame.
abbrev pub tail_of : ℤ → List ℕ → List ℕ
tail_of servo_id body = three_digits (sid servo_id) ++ (body ++ text_bytes "!")

-- What holds of digits, of the two letters and of the mark holds of a frame's tail.
module _ (P : ℕ → Type 0) (p : (d : ℕ) → d ≤ 9 → P (48 + d)) where
  pub three-All : (n : ℕ) → n ≤ 999 → All P (three_digits n)
  unfolding three_digits
  three-All n h =
      (p (n / 100) (omega arith), (p (n / 10 % 10) (omega arith), (p (n % 10) (omega arith), tt)))

  pub four-All : (n : ℕ) → n ≤ 9999 → All P (four_digits n)
  unfolding four_digits
  four-All n h = (p (n / 1000) (omega arith), three-All (n % 1000) (omega arith))

  pub frame-All : P 33 → (servo_id : ℤ) (body : List ℕ) → All P body → All P (tail_of servo_id body)
  unfolding text_bytes
  frame-All mark servo_id body h =
      All-append P (three_digits (sid servo_id)) (body ++ (33 ∷ []))
        (three-All (sid servo_id) (sid_fits servo_id)) (All-append P body (33 ∷ []) h (mark, tt))

  pub move-All :
      P 80
      → P 84
      → (position speed : ℕ) → position ≤ 9999
      → speed ≤ 9999
      → All P (move_body position speed)
  unfolding move_body text_bytes
  move-All letter_p letter_t position speed h k =
      let params =
        All-append P (four_digits position) (84 ∷ four_digits speed) (four-All position h)
          (letter_t, four-All speed k) in
      (letter_p, params)
