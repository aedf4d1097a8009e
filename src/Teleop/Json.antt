-- ===== src/Teleop/Json.antt =====
-- Values of JSON messages as `json.loads` gives them, the conversion by Python's `int`, and what a
-- conversion raises. An object is the list of its fields; a text keeps its digits of ASCII only, so a
-- text with digits of another script is refused here.
use mathlib.Core.Option
use Prim.Native.Char.{Char, code}
use Prim.Native.String.{[], ◌∷◌}
use robot_runtime.Prelude.{
  Bool, Option, String, false, if◌then◌else◌, leb, lower, nat_beq, none, some, string_eq, strip,
  suc, true, zero, ℕ, ◌&&◌, ◌*◌, ◌+◌, ◌-◌, ◌/◌, ◌==◌, ◌^◌,
}
use robot_runtime.Motion.Float.{Float, finite, infinite, minus_infinite, nan}
use robot_runtime.Prelude.Int.{negsuc, pos, ℤ}

mutual
  pub data Json : Type 0 where
    null : Json
    flag : Bool → Json
    whole_number : ℤ → Json
    float_number : Float → Json
    text : String → Json
    array : Items → Json
    object : Fields → Json

  pub data Items : Type 0 where
    empty_array : Items
    item : Json → Items → Items

  pub data Fields : Type 0 where
    empty_object : Fields
    field : String → Json → Fields → Fields

-- How a piece of code ends: with a value, with a `ValueError` or `TypeError`, or with an `OverflowError`.
pub data Run {ℓ} (A : Type ℓ) : Type ℓ where
  done : A → Run A
  refused : Run A
  overflowed : Run A

infixl 30 ◌>>=◌
abbrev pub ◌>>=◌ {ℓ κ} : {A : Type ℓ} {B : Type κ} → Run A → (A → Run B) → Run B
done a >>= f = f a
refused >>= f = refused
overflowed >>= f = overflowed

-- `data.get(key)`, which is `none` for a key that is missing.
unfoldable pub get : String → Fields → Option Json
get key empty_object = none
get key (field name value rest) =
    let found = get key rest in if key == name then some value else found

-- `key in data`
unfoldable pub has_key : String → Fields → Bool
unfolding get
has_key key fields = elim (get key fields) [ none ↦ false | some _ ↦ true ]

-- `data.get(key, default)` with a number as the default
unfoldable pub get_or : String → Json → Fields → Json
unfolding get
get_or key fallback fields = elim (get key fields) [ none ↦ fallback | some value ↦ value ]

-- `data.get(key)` where Python's `None` stands for a missing key too
unfoldable pub get_value : String → Fields → Json
unfolding get_or
get_value key fields = get_or key null fields

-- One more character of a number: the digits so far, and whether one stands directly before.
unfoldable pub next_digit : Char → Bool → ℕ → Option (Bool × ℕ)
next_digit c after_digit n =
    if leb 48 (code c) && leb (code c) 57
    then some (true, 10 * n + (code c - 48))
    else if nat_beq (code c) 95 && after_digit
    then some (false, n)
    else none

unfoldable pub digits_from : Bool → ℕ → String → Option ℕ
unfolding next_digit
digits_from after_digit n [] = if after_digit then some n else none
digits_from after_digit n (c ∷ s) = elim (next_digit c after_digit n) [
  | none ↦ none
  | some (after, m) ↦ digits_from after m s
]

abbrev pub negate : ℕ → ℤ
negate zero = pos 0
negate (suc n) = negsuc n

-- The sign in front of the digits.
unfoldable pub signed : String → Option ℤ
unfolding digits_from
signed [] = none
signed (c ∷ s) =
    if nat_beq (code c) 45
    then Option.map negate (digits_from false 0 s)
    else if nat_beq (code c) 43
    then Option.map pos (digits_from false 0 s)
    else Option.map pos (digits_from false 0 (c ∷ s))

abbrev pub run_of {ℓ} : {A : Type ℓ} → Option A → Run A
run_of none = refused
run_of (some a) = done a

-- A finite double is a multiple of 2^-1074, and `int` cuts it off towards zero.
unfoldable pub cut_off : ℤ → ℤ
cut_off (pos n) = pos (n / 2 ^ 1074)
cut_off (negsuc n) = negate (suc n / 2 ^ 1074)

unfoldable pub int_of_float : Float → Run ℤ
unfolding cut_off
int_of_float (finite n) = done (cut_off n)
int_of_float infinite = overflowed
int_of_float minus_infinite = overflowed
int_of_float nan = refused

-- `int(value)`
unfoldable pub int_of : Json → Run ℤ
unfolding signed int_of_float
int_of null = refused
int_of (flag true) = done (pos 1)
int_of (flag false) = done (pos 0)
int_of (whole_number n) = done n
int_of (float_number x) = int_of_float x
int_of (text s) = run_of (signed (strip s))
int_of (array items) = refused
int_of (object members) = refused

-- `str(value or '').strip().lower()`, for comparing it with words: other values than texts print as
-- something that is no word of the program, and as the empty text here.
unfoldable pub word_of : Json → String
word_of (text s) = lower (strip s)
word_of _ = ""
