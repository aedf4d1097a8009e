-- ===== src/Driver/Ranges.antt =====
-- The targets that a move of either protocol comes to.
use robot_runtime.Prelude.{Bool-cases, arith, inl, inr, ◌&&◌, ◌≤◌}
use robot_runtime.Driver.Convert.{degrees_to_pulse, move_target_lx, move_target_zl}
use robot_runtime.Driver.Units.{
  degrees_range, lx_pulse_range, lx_unit_range, zl_position_range, zl_pulse_range,
}
use robot_runtime.Lx.Words.{clamp}
use robot_runtime.Prelude.Int.{leb_ℤ, pos, pos_part, ℤ}

pub move_target_lx_range :
    (position : ℤ)
    → (125 ≤ (move_target_lx position).0)
      × ((move_target_lx position).0 ≤ 875)
      × (500 ≤ (move_target_lx position).1)
      × ((move_target_lx position).1 ≤ 2500)
unfolding move_target_lx clamp
move_target_lx_range position =
    let n = pos_part position in
    let unit = lx_unit_range position in
    let pulse = lx_pulse_range position in
    let clamped = lx_pulse_range (pos (clamp 125 875 position)) in
    let degrees = lx_unit_range (pos (degrees_to_pulse n)) in
    elim (Bool-cases (leb_ℤ (pos 0) position && leb_ℤ position (pos 180))) [
      | inl small ↦
          let range = degrees_range n (ground arith) in
          (ground arith, ground arith, ground arith, ground arith)
      | inr large ↦ (ground arith, ground arith, ground arith, ground arith)
    ]

pub move_target_zl_range :
    (position : ℤ)
    → (833 ≤ (move_target_zl position).0)
      × ((move_target_zl position).0 ≤ 2167)
      × (500 ≤ (move_target_zl position).1)
      × ((move_target_zl position).1 ≤ 2500)
unfolding move_target_zl clamp
move_target_zl_range position =
    let n = pos_part position in
    let unit = zl_position_range position in
    let pulse = zl_pulse_range position in
    let clamped = zl_pulse_range (pos (clamp 833 2167 position)) in
    let degrees = zl_position_range (pos (degrees_to_pulse n)) in
    elim (Bool-cases (leb_ℤ (pos 0) position && leb_ℤ position (pos 180))) [
      | inl small ↦
          let range = degrees_range n (ground arith) in
          (ground arith, ground arith, ground arith, ground arith)
      | inr large ↦ (ground arith, ground arith, ground arith, ground arith)
    ]
