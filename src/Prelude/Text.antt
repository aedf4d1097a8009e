-- ===== src/Prelude/Text.antt =====
-- Python's `str.strip` and `str.lower` over native texts.
use Prim.Native.Nat.{ℕ}
use Prim.Native.Char.{Char, code}
use Prim.Native.String.{String, [], ◌∷◌}
use mathlib.Core.Path.{◌≡◌, refl}
use mathlib.Core.Bool.{Bool, ◌&&◌, ◌||◌}
use mathlib.Core.Logic.{inl, inr}
use native.Mathlib.Omega.{arith}
use robot_runtime.Prelude.Tests.{leb, nat_beq, Bool-cases, if◌then◌else◌}

abbrev between : ℕ → ℕ → ℕ → Bool
between lo hi c = leb lo c && leb c hi

-- The code points that `str.isspace` accepts, which `strip` removes.
unfoldable pub is_space : Char → Bool
is_space ch =
    let c = code ch in
    between 9 13 c
    || between 28 32 c
    || nat_beq c 0x85
    || nat_beq c 0xa0
    || nat_beq c 0x1680
    || between 0x2000 0x200a c
    || between 0x2028 0x2029 c
    || nat_beq c 0x202f
    || nat_beq c 0x205f
    || nat_beq c 0x3000

unfoldable pub lstrip : String → String
lstrip [] = []
lstrip (c ∷ s) = if is_space c then lstrip s else c ∷ s

-- `c` in front of a text that has lost its trailing space.
unfoldable pub cons_stripped : Char → String → String
cons_stripped c [] = if is_space c then [] else c ∷ []
cons_stripped c (d ∷ s) = c ∷ d ∷ s

unfoldable pub rstrip : String → String
unfolding cons_stripped
rstrip [] = []
rstrip (c ∷ s) = cons_stripped c (rstrip s)

unfoldable pub strip : String → String
unfolding lstrip rstrip is_space
strip s = lstrip (rstrip s)

stripped : strip "  left ankle\n" ≡ "left ankle"
unfolding strip
stripped = refl

-- A letter's place in the first text gives its lower-case form in the second. The letters are ASCII's
-- and U+212A, the one other code point whose lower-case form is an ASCII letter. The program compares
-- lowered texts with ASCII words only, so the remaining letters are left as they are.
unfoldable pub lower_from : String → String → Char → Char
lower_from (u ∷ us) (l ∷ ls) c = if nat_beq (code u) (code c) then l else lower_from us ls c
lower_from _ _ c = c

unfoldable pub lower_char : Char → Char
unfolding lower_from
lower_char = lower_from "ABCDEFGHIJKLMNOPQRSTUVWXYZK" "abcdefghijklmnopqrstuvwxyzk"

unfoldable pub lower : String → String
unfolding lower_char
lower [] = []
lower (c ∷ s) = lower_char c ∷ lower s

lowered : lower "Left_ANKLE 9" ≡ "left_ankle 9"
unfolding lower
lowered = refl

lstrip-lstrip : (s : String) → lstrip (lstrip s) ≡ lstrip s
unfolding lstrip
lstrip-lstrip [] = refl
lstrip-lstrip (c ∷ s) = ground (arith, lstrip-lstrip s)

-- A text that keeps its end has a tail that keeps its end.
rstrip_tail : (c : Char) (s : String) → rstrip (c ∷ s) ≡ c ∷ s → rstrip s ≡ s
unfolding rstrip
rstrip_tail c s h = go (rstrip s) refl h
  where
    go : (r : String) → rstrip s ≡ r → cons_stripped c r ≡ c ∷ s → rstrip s ≡ s
    go [] e k = ground arith
    go (d ∷ r) e k = cc

rstrip-cons_stripped :
    (c : Char) (r : String) → rstrip r ≡ r → rstrip (cons_stripped c r) ≡ cons_stripped c r
unfolding rstrip
rstrip-cons_stripped c [] h = elim (Bool-cases (is_space c)) [
  | inl space ↦ rw space
  | inr other ↦ rw other (rw other)
]
rstrip-cons_stripped c (d ∷ r) h = rw h

rstrip-rstrip : (s : String) → rstrip (rstrip s) ≡ rstrip s
unfolding rstrip
rstrip-rstrip [] = refl
rstrip-rstrip (c ∷ s) = rstrip-cons_stripped c (rstrip s) (rstrip-rstrip s)

rstrip-lstrip : (s : String) → rstrip s ≡ s → rstrip (lstrip s) ≡ lstrip s
unfolding lstrip
rstrip-lstrip [] h = h
rstrip-lstrip (c ∷ s) h = elim (Bool-cases (is_space c)) [
  | inl space ↦ rw space (rstrip-lstrip s (rstrip_tail c s h))
  | inr other ↦ rw other h
]

-- Stripping twice is stripping once.
pub strip-strip : (s : String) → strip (strip s) ≡ strip s
unfolding strip
strip-strip s = rw (rstrip-lstrip (rstrip s) (rstrip-rstrip s)) (lstrip-lstrip (rstrip s))
