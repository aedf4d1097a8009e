-- ===== src/Scene/Rounding.antt =====
-- The two float operations of the scene checks. A finite float is a whole multiple of 2^-1074, as in
-- `Motion.Float`; a sum is rounded to the nearest double, a half to the even one.
use robot_runtime.Prelude.{false, nat_beq, suc, true, zero, ℕ, ◌*◌, ◌-◌, ◌/◌, ◌^◌}
use robot_runtime.Driver.Convert.{round_div}

-- The number of halvings after which nothing is left. 4096 rounds are more than any sum of doubles has
-- binary digits.
unfoldable pub bits : ℕ → ℕ → ℕ
bits zero n = 0
bits (suc fuel) n = elim (nat_beq n 0) [ true ↦ 0 | false ↦ suc (bits fuel (n / 2)) ]

-- The nearest multiple with 53 binary digits.
unfoldable pub round_double : ℕ → ℕ
unfolding bits round_div
round_double n = let scale = 2 ^ (bits 4096 n - 53) in round_div n scale * scale

-- `size / 2.0`
unfoldable pub half : ℕ → ℕ
unfolding round_div
half n = round_div n 2
