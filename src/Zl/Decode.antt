-- ===== src/Zl/Decode.antt =====
-- The decoders of `ZLBusServoProtocol`. A compiled pattern is a function from a text that may start with
-- a match to its groups and the text behind it; no pattern here can match in two ways, so reading it
-- from the left is what the regular expression does.
use robot_runtime.Prelude.{
  Bool, List, Option, [], false, if◌then◌else◌, length, leb, nat_eq, none, not, some, suc, true,
  zero, ℕ, ◌&&◌, ◌*◌, ◌++◌, ◌+◌, ◌-◌, ◌==◌, ◌∷◌,
}
use robot_runtime.Prelude.Int.{int_eq, pos, sub_ℕ, ℤ}
use robot_runtime.Zl.Encode.{text_bytes}
use robot_runtime.Zl.Unicode.{decode_utf8, digit_value, ready}

infixl 20 ◌>>=◌
abbrev pub ◌>>=◌ {ℓ κ} : {A : Type ℓ} {B : Type κ} → Option A → (A → Option B) → Option B
none >>= f = none
some a >>= f = f a

abbrev pub Matcher : Type 0 → Type 0
Matcher A = List ℕ → Option (A × List ℕ)

unfoldable pub literal : List ℕ → List ℕ → Option (List ℕ)
literal [] text = some text
literal (c ∷ cs) [] = none
literal (c ∷ cs) (d ∷ ds) = let rest = literal cs ds in if c == d then rest else none

-- `\d`
unfoldable pub digit : Matcher ℕ
digit [] = none
digit (c ∷ cs) = elim (digit_value c) [ none ↦ none | some d ↦ some (d, cs) ]

-- `(?P<sid>\d{3})` and `int`
unfoldable pub three : Matcher ℕ
unfolding digit
three text = do
  (a, text) ← digit text
  (b, text) ← digit text
  (c, text) ← digit text
  some (100 * a + 10 * b + c, text)

-- At most so many further digits of a number.
unfoldable pub more_digits : ℕ → ℕ → List ℕ → ℕ × List ℕ
more_digits n value [] = (value, [])
more_digits zero value (c ∷ cs) = (value, c ∷ cs)
more_digits (suc n) value (c ∷ cs) = elim (digit_value c) [
  | none ↦ (value, c ∷ cs)
  | some d ↦ more_digits n (10 * value + d) cs
]

-- `\d{1,5}`
unfoldable pub up_to_five : Matcher ℕ
unfolding digit more_digits
up_to_five text = do (d, text) ← digit text; some (more_digits 4 d text)

-- `-?`
unfoldable pub minus : List ℕ → Bool × List ℕ
minus [] = (false, [])
minus (c ∷ cs) = if c == 45 then (true, cs) else (false, c ∷ cs)

-- `(?P<pos>-?\d{1,5})` and `int`
unfoldable pub position_group : Matcher ℤ
unfolding minus up_to_five
position_group text = do
  let (negative, text) = minus text
  (n, text) ← up_to_five text
  some ((if negative then sub_ℕ 0 n else pos n), text)

-- `_POS_RE`
unfoldable pub position_at : Matcher (ℕ × ℤ)
unfolding literal text_bytes three position_group
position_at text = do
  text ← literal (text_bytes "#") text
  (id, text) ← three text
  text ← literal (text_bytes "P") text
  (position, text) ← position_group text
  text ← literal (text_bytes "!") text
  some ((id, position), text)

-- `_ID_RE`
unfoldable pub id_at : Matcher (ℕ × ℕ)
unfolding literal text_bytes three
id_at text = do
  text ← literal (text_bytes "#") text
  (id, text) ← three text
  text ← literal (text_bytes "P!") text
  some ((id, id), text)

-- `[^!]*`
unfoldable pub until_mark : List ℕ → List ℕ × List ℕ
until_mark [] = ([], [])
until_mark (c ∷ cs) =
    let (word, rest) = until_mark cs in if c == 33 then ([], c ∷ cs) else (c ∷ word, rest)

unfoldable pub nonempty : List ℕ → Option (List ℕ)
nonempty [] = none
nonempty (c ∷ cs) = some (c ∷ cs)

-- `_VER_RE`
unfoldable pub version_at : Matcher (ℕ × List ℕ)
unfolding literal text_bytes three until_mark nonempty
version_at text = do
  text ← literal (text_bytes "#") text
  (id, text) ← three text
  text ← literal (text_bytes "PV") text
  let (word, text) = until_mark text
  word ← nonempty word
  text ← literal (text_bytes "!") text
  some ((id, word), text)

-- `[1-8]`
unfoldable pub mode_digit : Matcher ℕ
mode_digit [] = none
mode_digit (c ∷ cs) = if leb 49 c && leb c 56 then some (c - 48, cs) else none

-- `_MODE_RE`
unfoldable pub mode_at : Matcher (ℕ × ℕ)
unfolding literal text_bytes three mode_digit
mode_at text = do
  text ← literal (text_bytes "#") text
  (id, text) ← three text
  text ← literal (text_bytes "PMOD") text
  (mode, text) ← mode_digit text
  text ← literal (text_bytes "!") text
  some ((id, mode), text)

-- `\d*`
unfoldable pub digits_of : List ℕ → List ℕ × List ℕ
digits_of [] = ([], [])
digits_of (c ∷ cs) =
    let (word, rest) = digits_of cs in
    elim (digit_value c) [ none ↦ ([], c ∷ cs) | some d ↦ (c ∷ word, rest) ]

-- `(?:\.\d+)?`
unfoldable pub fraction : List ℕ → List ℕ × List ℕ
unfolding digits_of
fraction [] = ([], [])
fraction (c ∷ cs) =
    let (word, rest) = digits_of cs in
    if c == 46 && not (length word == 0) then (c ∷ word, rest) else ([], c ∷ cs)

-- `-?\d+(?:\.\d+)?`: the text that `float` reads.
unfoldable pub number_text : Matcher (List ℕ)
unfolding minus digits_of nonempty fraction
number_text text = do
  let (negative, text) = minus text
  let (word, text) = digits_of text
  word ← nonempty word
  let (part, text) = fraction text
  some (((if negative then text_bytes "-" else []) ++ (word ++ part)), text)

-- `_TV_RE`
unfoldable pub temp_voltage_at : Matcher (ℕ × (List ℕ × List ℕ))
unfolding literal text_bytes three number_text
temp_voltage_at text = do
  text ← literal (text_bytes "#") text
  (id, text) ← three text
  text ← literal (text_bytes "T") text
  (temp, text) ← number_text text
  text ← literal (text_bytes "V") text
  (volt, text) ← number_text text
  text ← literal (text_bytes "!") text
  some ((id, (temp, volt)), text)

-- `finditer`: the groups of the matches from the left. A number of code points are skipped first: what
-- is left of the match before.
unfoldable pub taken : {A : Type 0} → List ℕ → Option (A × List ℕ) → List A × ℕ
taken behind none = ([], 0)
taken behind (some (a, rest)) = (a ∷ [], length behind - length rest)

unfoldable pub attempt : {A : Type 0} → Matcher A → ℕ → ℕ → List ℕ → List A × ℕ
unfolding taken
attempt pattern_at zero c cs = taken cs (pattern_at (c ∷ cs))
attempt pattern_at (suc skipped) c cs = ([], skipped)

unfoldable pub find_matches : {A : Type 0} → Matcher A → ℕ → List ℕ → List A
unfolding attempt
find_matches pattern_at skipped [] = []
find_matches pattern_at skipped (c ∷ cs) =
    let (found, next) = attempt pattern_at skipped c cs in found ++ find_matches pattern_at next cs

unfoldable pub is_other : Option ℤ → ℕ → Bool
is_other none id = false
is_other (some servo_id) id = not (pos id == servo_id)

unfoldable pub first_for : {A : Type 0} → Option ℤ → List (ℕ × A) → Option A
unfolding is_other
first_for expected [] = none
first_for expected ((id, a) ∷ found) =
    let later = first_for expected found in if is_other expected id then later else some a

-- What the decoders share: the first match of the pattern that is from the expected servo.
unfoldable pub decode_response : {A : Type 0} → Matcher (ℕ × A) → Option ℤ → List ℕ → Option A
unfolding decode_utf8 find_matches first_for
decode_response pattern_at expected [] = none
decode_response pattern_at expected (b ∷ bs) =
    first_for expected (find_matches pattern_at 0 (decode_utf8 ready (b ∷ bs)))

unfoldable pub zl_decode_position_response : Option ℤ → List ℕ → Option ℤ
unfolding decode_response position_at
zl_decode_position_response = decode_response position_at

unfoldable pub zl_decode_id_response : Option ℤ → List ℕ → Option ℕ
unfolding decode_response id_at
zl_decode_id_response = decode_response id_at

unfoldable pub zl_decode_version_response : Option ℤ → List ℕ → Option (List ℕ)
unfolding decode_response version_at
zl_decode_version_response = decode_response version_at

unfoldable pub zl_decode_mode_response : Option ℤ → List ℕ → Option ℕ
unfolding decode_response mode_at
zl_decode_mode_response = decode_response mode_at

-- The two texts, before `float` reads them.
unfoldable pub zl_decode_temp_voltage_response : Option ℤ → List ℕ → Option (List ℕ × List ℕ)
unfolding decode_response temp_voltage_at
zl_decode_temp_voltage_response = decode_response temp_voltage_at

-- `"#OK!" in text`
unfoldable pub contains_ok : List ℕ → Bool
unfolding literal text_bytes
contains_ok [] = false
contains_ok (c ∷ cs) =
    let later = contains_ok cs in
    elim (literal (text_bytes "#OK!") (c ∷ cs)) [ none ↦ later | some rest ↦ true ]

unfoldable pub zl_decode_ok_response : List ℕ → Bool
unfolding contains_ok decode_utf8
zl_decode_ok_response bytes = contains_ok (decode_utf8 ready bytes)
