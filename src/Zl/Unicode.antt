-- ===== src/Zl/Unicode.antt =====
-- The parts of Python's texts that the decoders of `ZLBusServoProtocol` use: `bytes.decode("utf-8",
-- errors="ignore")` and the digits of `\d` and `int`. A text is the list of its code points.
use robot_runtime.Prelude.{
  Bool, List, Option, [], if◌then◌else◌, leb, ltb, none, some, suc, zero, ℕ, ◌%◌, ◌&&◌, ◌*◌, ◌++◌,
  ◌+◌, ◌-◌, ◌∷◌,
}

-- What is left of a character whose first bytes are read: how many bytes follow the next one, the value
-- so far, and the range of the next byte.
pub data Utf8 : Type 0 where
  ready : Utf8
  pending : ℕ → ℕ → ℕ → ℕ → Utf8

abbrev pub between : ℕ → ℕ → ℕ → Bool
between lo hi c = leb lo c && leb c hi

-- The first byte of a character; one that starts none is ignored.
unfoldable pub start_character : ℕ → Utf8 × List ℕ
start_character b =
    if ltb b 0x80
    then (ready, b ∷ [])
    else if between 0xc2 0xdf b
    then (pending 0 (b % 32) 0x80 0xbf, [])
    else if between 0xe0 0xef b
    then (
      pending 1 (b % 16) (if between 0xe0 0xe0 b then 0xa0 else 0x80)
          (if between 0xed 0xed b then 0x9f else 0xbf),
      [],
    )
    else if between 0xf0 0xf4 b
    then (
      pending 2 (b % 8) (if between 0xf0 0xf0 b then 0x90 else 0x80)
          (if between 0xf4 0xf4 b then 0x8f else 0xbf),
      [],
    )
    else (ready, [])

unfoldable pub continue_character : ℕ → ℕ → Utf8 × List ℕ
continue_character zero value = (ready, value ∷ [])
continue_character (suc left) value = (pending left value 0x80 0xbf, [])

-- A byte out of range ends the character before it, which is ignored, and starts another.
unfoldable pub utf8_step : Utf8 → ℕ → Utf8 × List ℕ
unfolding start_character continue_character
utf8_step ready b = start_character b
utf8_step (pending left value lo hi) b =
    if between lo hi b then continue_character left (value * 64 + b % 64) else start_character b

unfoldable pub decode_utf8 : Utf8 → List ℕ → List ℕ
unfolding utf8_step
decode_utf8 state [] = []
decode_utf8 state (b ∷ bs) = let (next, out) = utf8_step state b in out ++ decode_utf8 next bs

-- The zeros of Unicode's other decimal digits; each is followed by the nine above it.
abbrev zeros : List ℕ
zeros =
    0x660 ∷ 0x6f0 ∷ 0x7c0 ∷ 0x966 ∷ 0x9e6 ∷ 0xa66 ∷ 0xae6 ∷ 0xb66 ∷ 0xbe6 ∷ 0xc66 ∷ 0xce6 ∷ 0xd66
    ∷ 0xde6 ∷ 0xe50 ∷ 0xed0 ∷ 0xf20 ∷ 0x1040 ∷ 0x1090 ∷ 0x17e0 ∷ 0x1810 ∷ 0x1946 ∷ 0x19d0 ∷ 0x1a80
    ∷ 0x1a90 ∷ 0x1b50 ∷ 0x1bb0 ∷ 0x1c40 ∷ 0x1c50 ∷ 0xa620 ∷ 0xa8d0 ∷ 0xa900 ∷ 0xa9d0 ∷ 0xa9f0
    ∷ 0xaa50 ∷ 0xabf0 ∷ 0xff10 ∷ 0x104a0 ∷ 0x10d30 ∷ 0x11066 ∷ 0x110f0 ∷ 0x11136 ∷ 0x111d0 ∷ 0x112f0
    ∷ 0x11450 ∷ 0x114d0 ∷ 0x11650 ∷ 0x116c0 ∷ 0x11730 ∷ 0x118e0 ∷ 0x11950 ∷ 0x11c50 ∷ 0x11d50
    ∷ 0x11da0 ∷ 0x16a60 ∷ 0x16ac0 ∷ 0x16b50 ∷ 0x1d7ce ∷ 0x1d7d8 ∷ 0x1d7e2 ∷ 0x1d7ec ∷ 0x1d7f6
    ∷ 0x1e140 ∷ 0x1e2f0 ∷ 0x1e950 ∷ 0x1fbf0 ∷ []

unfoldable digit_of : List ℕ → ℕ → Option ℕ
digit_of [] c = none
digit_of (z ∷ zs) c = let rest = digit_of zs c in if between z (z + 9) c then some (c - z) else rest

unfoldable pub digit_value : ℕ → Option ℕ
unfolding digit_of
digit_value c = if between 48 57 c then some (c - 48) else digit_of zeros c
