-- ===== src/Lx/Scan.antt =====
-- The fuel of the scanner.
use robot_runtime.Prelude.{List, [], arith, length, refl, suc, zero, ℕ, ◌<◌, ◌∷◌, ◌≡◌}
use robot_runtime.Lx.Packet.{iter_from}

pub iter_from_short : (f : ℕ) (bytes : List ℕ) → length bytes < 6 → iter_from f bytes ≡ []
unfolding iter_from
iter_from_short zero bytes h = refl
iter_from_short (suc f) [] h = refl
iter_from_short (suc f) (a ∷ []) h = refl
iter_from_short (suc f) (a ∷ b ∷ []) h = refl
iter_from_short (suc f) (a ∷ b ∷ c ∷ []) h = refl
iter_from_short (suc f) (a ∷ b ∷ c ∷ d ∷ []) h = refl
iter_from_short (suc f) (a ∷ b ∷ c ∷ d ∷ e ∷ []) h = refl
iter_from_short (suc f) (a ∷ b ∷ c ∷ d ∷ e ∷ t ∷ ts) h = absurd (omega arith)
