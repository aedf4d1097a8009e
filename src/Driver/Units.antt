-- ===== src/Driver/Units.antt =====
-- The ranges of the conversions, and their ways back and forth.
use robot_runtime.Prelude.{arith, ℕ, ◌≡◌, ◌≤◌}
use robot_runtime.Driver.Convert.{
  degrees_to_pulse, lx_unit_to_pulse, pulse_to_lx_unit, pulse_to_zl_position, round_div,
  zl_position_to_pulse,
}
use robot_runtime.Lx.Words.{clamp}
use robot_runtime.Prelude.Int.{pos, ℤ}

pub lx_unit_range : (v : ℤ) → (125 ≤ pulse_to_lx_unit v) × (pulse_to_lx_unit v ≤ 875)
unfolding pulse_to_lx_unit clamp round_div
lx_unit_range v = (ground arith, ground arith)

pub lx_pulse_range : (v : ℤ) → (500 ≤ lx_unit_to_pulse v) × (lx_unit_to_pulse v ≤ 2500)
unfolding lx_unit_to_pulse clamp round_div
lx_pulse_range v = (ground arith, ground arith)

pub zl_position_range : (v : ℤ) → (833 ≤ pulse_to_zl_position v) × (pulse_to_zl_position v ≤ 2167)
unfolding pulse_to_zl_position clamp round_div
zl_position_range v = (ground arith, ground arith)

pub zl_pulse_range : (v : ℤ) → (500 ≤ zl_position_to_pulse v) × (zl_position_to_pulse v ≤ 2500)
unfolding zl_position_to_pulse clamp round_div
zl_pulse_range v = (ground arith, ground arith)

pub degrees_range : (n : ℕ) → n ≤ 180 → (500 ≤ degrees_to_pulse n) × (degrees_to_pulse n ≤ 2500)
unfolding degrees_to_pulse round_div
degrees_range n h = (ground arith, ground arith)

-- An LX unit within 125 and 875 is the unit of its pulse.
pub lx_round_trip :
    (u : ℕ) → 125 ≤ u → u ≤ 875 → pulse_to_lx_unit (pos (lx_unit_to_pulse (pos u))) ≡ u
unfolding pulse_to_lx_unit lx_unit_to_pulse clamp round_div
lx_round_trip u low high = ground arith

-- A ZL position within 833 and 2167 is the position of its pulse.
pub zl_round_trip :
    (p : ℕ) → 833 ≤ p → p ≤ 2167 → pulse_to_zl_position (pos (zl_position_to_pulse (pos p))) ≡ p
unfolding pulse_to_zl_position zl_position_to_pulse clamp round_div
zl_round_trip p low high = ground arith
