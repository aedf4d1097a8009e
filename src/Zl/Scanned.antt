-- ===== src/Zl/Scanned.antt =====
-- How the patterns read digits, and what they pass over.
use robot_runtime.Prelude.{
  All, List, [], arith, false, ltb, nat_eq, none, refl, some, suc, true, ℕ, ◌%◌, ◌*◌, ◌++◌, ◌+◌,
  ◌/◌, ◌==◌, ◌∙◌, ◌≡◌, ◌≤◌, ◌∷◌, ap,
}
use robot_runtime.Prelude.Int.{int_eq, pos}
use robot_runtime.Zl.Decode.{
  attempt, digit, find_matches, literal, minus, more_digits, position_at, position_group, taken,
  three, up_to_five,
}
use robot_runtime.Zl.Encode.{four_digits, text_bytes, three_digits}
use robot_runtime.Zl.Unicode.{decode_utf8, digit_value, ready, utf8_step, start_character}

digit_value-ascii : (d : ℕ) → d ≤ 9 → digit_value (48 + d) ≡ some d
unfolding digit_value
digit_value-ascii d h = ground arith

pub decode_utf8-ascii :
    (text rest : List ℕ)
    → All (λ c. ltb c 0x80 ≡ true) text
    → decode_utf8 ready (text ++ rest) ≡ text ++ decode_utf8 ready rest
unfolding decode_utf8 utf8_step start_character
decode_utf8-ascii [] rest h = refl
decode_utf8-ascii (c ∷ text) rest h = rw (h.0, decode_utf8-ascii text rest h.1) refl

pub miss :
    (c : ℕ) (text : List ℕ)
    → position_at (c ∷ text) ≡ none
    → find_matches position_at 0 (c ∷ text) ≡ find_matches position_at 0 text
unfolding find_matches attempt taken
miss c text h = rw h refl

elsewhere : (c : ℕ) (text : List ℕ) → (35 == c) ≡ false → position_at (c ∷ text) ≡ none
unfolding position_at literal text_bytes
elsewhere c text h = rw h refl

pub skip_over :
    (text rest : List ℕ)
    → All (λ c. (35 == c) ≡ false) text
    → find_matches position_at 0 (text ++ rest) ≡ find_matches position_at 0 rest
skip_over [] rest h = refl
skip_over (c ∷ text) rest h =
    miss c (text ++ rest) (elsewhere c (text ++ rest) h.0) ∙ skip_over text rest h.1

digit_read : (d : ℕ) (rest : List ℕ) → d ≤ 9 → digit ((48 + d) ∷ rest) ≡ some (d, rest)
unfolding digit
digit_read d rest h = rw (digit_value-ascii d h, digit) refl

more_read :
    (n value d : ℕ) (rest : List ℕ)
    → d ≤ 9
    → more_digits (suc n) value ((48 + d) ∷ rest) ≡ more_digits n (10 * value + d) rest
unfolding more_digits
more_read n value d rest h = rw (digit_value-ascii d h, more_digits) refl

more_end :
    (value c : ℕ) (rest : List ℕ)
    → digit_value c ≡ none
    → more_digits 1 value (c ∷ rest) ≡ (value, c ∷ rest)
unfolding more_digits
more_end value c rest h = rw (h, more_digits) refl

pub three_read : (n : ℕ) (rest : List ℕ) → n ≤ 999 → three (three_digits n ++ rest) ≡ some (n, rest)
unfolding three three_digits
three_read n rest h =
    rw
      (
        digit_read (n / 100) ((48 + n / 10 % 10) ∷ (48 + n % 10) ∷ rest) (omega arith),
        digit_read (n / 10 % 10) ((48 + n % 10) ∷ rest) (omega arith),
        digit_read (n % 10) rest (omega arith),
      )
      (ap (λ m. some (m, rest)) (omega arith))

four_read :
    (n c : ℕ) (rest : List ℕ)
    → n ≤ 9999
    → digit_value c ≡ none
    → up_to_five (four_digits n ++ (c ∷ rest)) ≡ some (n, c ∷ rest)
unfolding up_to_five four_digits three_digits
four_read n c rest h k =
    let m = n % 1000 in
    let q = m / 100 in
    let r = m / 10 % 10 in
    let s = m % 10 in
    rw
      (
        digit_read (n / 1000) ((48 + q) ∷ (48 + r) ∷ (48 + s) ∷ c ∷ rest) (omega arith),
        more_read 3 (n / 1000) q ((48 + r) ∷ (48 + s) ∷ c ∷ rest) (omega arith),
        more_read 2 (10 * (n / 1000) + q) r ((48 + s) ∷ c ∷ rest) (omega arith),
        more_read 1 (10 * (10 * (n / 1000) + q) + r) s (c ∷ rest) (omega arith),
        more_end (10 * (10 * (10 * (n / 1000) + q) + r) + s) c rest k,
      )
      (ap (λ m. some (m, c ∷ rest)) (omega arith))

pub group_read :
    (n c : ℕ) (rest : List ℕ)
    → n ≤ 9999
    → digit_value c ≡ none
    → position_group (four_digits n ++ (c ∷ rest)) ≡ some (pos n, c ∷ rest)
unfolding position_group minus four_digits three_digits
group_read n c rest h k =
    let unsigned : ((48 + n / 1000) == 45) ≡ false = ground arith in
    rw (unsigned, four_read n c rest h k) refl
