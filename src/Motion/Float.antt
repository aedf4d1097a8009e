-- ===== src/Motion/Float.antt =====
-- Python's floats, as far as the goal checks compare them. Every finite double is a whole multiple of
-- 2^-1074, so a finite float is that multiple and a comparison is exact.
use robot_runtime.Prelude.{Bool, false, true, ℕ, ◌*◌, ◌^◌}
use robot_runtime.Prelude.Int.{ℤ}

pub data Float : Type 0 where
  finite : ℤ → Float
  infinite : Float
  minus_infinite : Float
  nan : Float

unfoldable pub is_finite : Float → Bool
is_finite (finite n) = true
is_finite _ = false

-- The places of whole numbers, and of the double that `0.1` denotes.
unfoldable pub whole : ℕ → ℕ
whole n = n * 2 ^ 1074

unfoldable pub one_tenth : ℕ
one_tenth = 3602879701896397 * 2 ^ 1019
