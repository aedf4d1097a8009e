-- ===== src/Teleop/Ranges.antt =====
-- What holds of every servo command that the parsers return, in any of the four formats.
use robot_runtime.Prelude.{
  Bool, Bool-cases, Option, String, arith, false, if◌then◌else◌, inl, inr, none, refl, some,
  string_eq, true, ◌&&◌, ◌*◌, ◌+◌, ◌/◌, ◌==◌, ◌≡◌, ◌⊎◌,
}
use robot_runtime.Driver.Convert.{round_div}
use robot_runtime.Lx.Words.{clamp}
use robot_runtime.Prelude.Int.{int_eq, pos, pos_part, ℤ, ◌<ℤ◌, ◌≤ℤ◌, leb_ℤ, ltb_ℤ, negsuc}
use robot_runtime.Teleop.Json.{Json, Run, done, int_of, overflowed, refused}
use robot_runtime.Teleop.Parse.{
  ParsedCommand, angle_to_us, centered_angle_to_us, default_duration, first_positive,
  normalize_bus_position, positive_of, resolve_duration_ms, within_range,
}
use robot_runtime.Teleop.Runs.{
  Ensures, Whenever, all-Ensures, bind-Ensures, either-Ensures, map-Ensures, then-Ensures,
}
use robot_runtime.Teleop.Formats.{command_of, position_of}

abbrev pub IsPulse : ℤ → Type 0
IsPulse n = (pos 500 ≤ℤ n) × (n ≤ℤ pos 2500)

abbrev pub IsPositive : ℤ → Type 0
IsPositive n = pos 0 <ℤ n

-- A bus command with a pulse, or a PCA command, with its encoding, and a duration above zero.
pub record IsCommand (c : ParsedCommand) : Type 0 where
  pub kind :
      ((c.servo_type ≡ "bus") × (c.value_encoding ≡ "bus_pulse_us") × IsPulse c.position)
      ⊎ ((c.servo_type ≡ "pca") × (c.value_encoding ≡ "pca_tick"))
  pub lasting : IsPositive c.duration_ms

positive_of-Ensures : (r : Run ℤ) → Ensures (Whenever IsPositive) (positive_of r)
unfolding positive_of
positive_of-Ensures (done n) = elim (Bool-cases (ltb_ℤ (pos 0) n)) [
  | inl above ↦ rw above (ground arith)
  | inr below ↦ rw below tt
]
positive_of-Ensures refused = tt
positive_of-Ensures overflowed = tt

first_positive-Ensures :
    (first : Option ℤ) (next : Run (Option ℤ))
    → Whenever IsPositive first
    → Ensures (Whenever IsPositive) next
    → Ensures (Whenever IsPositive) (first_positive first next)
unfolding first_positive
first_positive-Ensures none next h k = k
first_positive-Ensures (some n) next h k = h

default_duration-Ensures :
    (found : Option ℤ) → Whenever IsPositive found → Ensures IsPositive (default_duration found)
default_duration-Ensures none h = omega arith
default_duration-Ensures (some n) h = h

pub resolve_duration_ms-Ensures :
    (duration_ms speed : Json) → Ensures IsPositive (resolve_duration_ms duration_ms speed)
unfolding resolve_duration_ms
resolve_duration_ms-Ensures duration_ms speed =
    bind-Ensures (Whenever IsPositive) IsPositive default_duration _
      (bind-Ensures (Whenever IsPositive) (Whenever IsPositive)
        (λ first. first_positive first (positive_of (int_of speed)))
        (positive_of (int_of duration_ms)) (positive_of-Ensures (int_of duration_ms))
        (λ first h. first_positive-Ensures first _ h (positive_of-Ensures (int_of speed))))
      default_duration-Ensures

pub clamp-IsPulse : (n : ℤ) → IsPulse (pos (clamp 500 2500 n))
unfolding clamp
clamp-IsPulse n = ground arith

centered-IsPulse : (n : ℤ) → IsPulse (pos (centered_angle_to_us n))
unfolding centered_angle_to_us clamp round_div
centered-IsPulse n = ground arith

within-IsPulse :
    (n : ℤ) → Ensures IsPulse (if within_range (pos 500) (pos 2500) n then done n else refused)
within-IsPulse n = elim (Bool-cases (within_range (pos 500) (pos 2500) n)) [
  | inl inside ↦ rw inside (ground arith)
  | inr outside ↦ rw outside tt
]

pub normalize-Ensures :
    (raw : ℤ) (encoding : String) (treat_as_raw : Bool)
    → Ensures IsPulse (normalize_bus_position raw encoding treat_as_raw)
unfolding normalize_bus_position angle_to_us
normalize-Ensures raw encoding treat_as_raw =
    either-Ensures IsPulse (encoding == "bus_pulse_us") _ _ (λ _. within-IsPulse raw)
      (either-Ensures IsPulse treat_as_raw _ _ (λ _. clamp-IsPulse raw)
        (either-Ensures IsPulse (within_range (pos 500) (pos 2500) raw) _ _ (λ h. ground arith)
          (either-Ensures IsPulse (within_range (pos 0) (pos 180) raw) _ _
            (λ _. clamp-IsPulse (pos ((500 * 180 + pos_part raw * 2000) / 180)))
            (either-Ensures IsPulse (leb_ℤ (negsuc 89) raw && ltb_ℤ raw (pos 0))
              (done (pos (centered_angle_to_us raw))) refused (λ _. centered-IsPulse raw) tt))))

pub position_of-Ensures :
    (is_bus : Bool) (position : Json) (encoding : String) (treat_as_raw : Bool)
    → Ensures (λ n. is_bus ≡ true → IsPulse n) (position_of is_bus position encoding treat_as_raw)
unfolding position_of
position_of-Ensures true position encoding treat_as_raw =
    then-Ensures (λ n. true ≡ true → IsPulse n) _ (int_of position)
      (λ raw.
        map-Ensures (normalize_bus_position raw encoding treat_as_raw) (λ n h _. h)
          (normalize-Ensures raw encoding treat_as_raw))
position_of-Ensures false position encoding treat_as_raw =
    all-Ensures _ (int_of position) (λ n h. absurd (let bad : false ≡ true = h in cc))

-- A command that `command_of` makes.
pub command_of-IsCommand :
    (is_bus : Bool) (servo_id position duration_ms port : ℤ)
    → (is_bus ≡ true → IsPulse position)
    → IsPositive duration_ms
    → IsCommand (command_of is_bus servo_id position duration_ms port)
command_of-IsCommand true servo_id position duration_ms port h k = record {
  kind = inl (refl, refl, h refl);
  lasting = k;
}
command_of-IsCommand false servo_id position duration_ms port h k = record {
  kind = inr (refl, refl);
  lasting = k;
}
