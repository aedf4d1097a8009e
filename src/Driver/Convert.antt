-- ===== src/Driver/Convert.antt =====
-- The conversions between pulses, LX units and ZL positions. The code computes them in floats; they
-- are written here with whole numbers, which gives the same integers: an exact quotient that lies
-- halfway between two integers has the denominator 8 or 1000 and is a double, so `round` takes its
-- even neighbour, and every other quotient is further from a half than the floats' error.
use robot_runtime.Prelude.{Bool, if◌then◌else◌, ltb, nat_beq, suc, ℕ, ◌%◌, ◌&&◌, ◌*◌, ◌+◌, ◌-◌, ◌/◌}
use robot_runtime.Lx.Words.{clamp}
use robot_runtime.Prelude.Int.{leb_ℤ, pos, pos_part, ℤ}

-- `round(num / den)` for a positive `den`: to the nearest, a half to the even neighbour.
unfoldable pub round_div : ℕ → ℕ → ℕ
round_div num den =
    let quotient = num / den in
    let twice = 2 * (num % den) in
    if ltb twice den
    then quotient
    else if ltb den twice
    then suc quotient
    else if nat_beq (quotient % 2) 0
    then quotient
    else suc quotient

abbrev in_range : ℕ → ℕ → ℤ → Bool
in_range lo hi n = leb_ℤ (pos lo) n && leb_ℤ n (pos hi)

-- `int(round(500 + (pos / 180.0) * 2000.0))`
unfoldable pub degrees_to_pulse : ℕ → ℕ
unfolding round_div
degrees_to_pulse degrees = round_div (500 * 180 + degrees * 2000) 180

unfoldable pub position_to_pulse : ℤ → ℕ
unfolding round_div degrees_to_pulse clamp
position_to_pulse position =
    let n = pos_part position in
    if in_range 0 180 position
    then degrees_to_pulse n
    else if in_range 500 2500 position
    then n
    else if in_range 0 1000 position
    then round_div (500 * 1000 + n * 2000) 1000
    else clamp 500 2500 position

unfoldable pub pulse_to_lx_unit : ℤ → ℕ
unfolding round_div clamp
pulse_to_lx_unit value =
    let pulse = clamp 500 2500 value in round_div (125 * 2000 + (pulse - 500) * 750) 2000

unfoldable pub lx_unit_to_pulse : ℤ → ℕ
unfolding round_div clamp
lx_unit_to_pulse value =
    let unit = clamp 125 875 value in round_div (500 * 750 + (unit - 125) * 2000) 750

unfoldable pub pulse_to_zl_position : ℤ → ℕ
unfolding round_div clamp
pulse_to_zl_position value =
    let pulse = clamp 500 2500 value in round_div (833 * 2000 + (pulse - 500) * 1334) 2000

unfoldable pub zl_position_to_pulse : ℤ → ℕ
unfolding round_div clamp
zl_position_to_pulse value =
    let position = clamp 833 2167 value in round_div (500 * 1334 + (position - 833) * 2000) 1334

-- The branch of a protocol in `_normalize_move_target`: the value that is sent, and the pulse.
unfoldable pub move_target_lx : ℤ → ℕ × ℕ
move_target_lx position =
    let n = pos_part position in
    let unit = clamp 125 875 position in
    if in_range 500 2500 position
    then (pulse_to_lx_unit position, n)
    else if in_range 0 180 position
    then (pulse_to_lx_unit (pos (degrees_to_pulse n)), degrees_to_pulse n)
    else if in_range 125 875 position
    then (n, lx_unit_to_pulse position)
    else (unit, lx_unit_to_pulse (pos unit))

unfoldable pub move_target_zl : ℤ → ℕ × ℕ
move_target_zl position =
    let n = pos_part position in
    let clamped = clamp 833 2167 position in
    if in_range 500 2500 position
    then (pulse_to_zl_position position, n)
    else if in_range 0 180 position
    then (pulse_to_zl_position (pos (degrees_to_pulse n)), degrees_to_pulse n)
    else if in_range 833 2167 position
    then (n, zl_position_to_pulse position)
    else (clamped, zl_position_to_pulse (pos clamped))
