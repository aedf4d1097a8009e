-- ===== src/Lx/Words.antt =====
-- Bytes and 16-bit words of `LXBusServoProtocol`, and Python's clamp. A byte string is a list of
-- numbers. `x & 0xFF` is `x % 256`, `x >> 8` is `x / 256`, and the `|` of a high and a low byte,
-- which share no bit, is their sum.
use robot_runtime.Prelude.{
  List, [], arith, if◌then◌else◌, leb, max, min, ℕ, ◌%◌, ◌*◌, ◌+◌, ◌-◌, ◌/◌, ◌<◌, ◌∷◌, ◌≡◌, ◌≤◌,
}
use robot_runtime.Prelude.Int.{ltb_ℤ, min_ℤ, mod_ℤ, negsuc, pos, pos_part, sub_ℕ, ℤ, ◌≤ℤ◌}

-- `max(lo, min(hi, int(value)))` with bounds that are not negative
unfoldable pub clamp : ℕ → ℕ → ℤ → ℕ
clamp lo hi value = max lo (min hi (pos_part value))

unfoldable pub u8 : ℤ → ℕ
unfolding mod_ℤ
u8 value = mod_ℤ value 256

-- The low byte and the high byte.
unfoldable pub split_u16 : ℕ → ℕ × ℕ
split_u16 value = let raw = value % 65536 in (raw % 256, raw / 256 % 256)

unfoldable pub join_u16 : ℕ → ℕ → ℕ
join_u16 low high = high % 256 * 256 + low % 256

unfoldable pub u16_to_i16 : ℕ → ℤ
u16_to_i16 value = let raw = value % 65536 in if leb 0x8000 raw then sub_ℕ raw 0x10000 else pos raw

-- The two tests of the code are a clamp to the signed range.
unfoldable pub i16_to_u16 : ℤ → ℕ
unfolding mod_ℤ
i16_to_u16 value =
    mod_ℤ (min_ℤ (if ltb_ℤ value (negsuc 32767) then negsuc 32767 else value) (pos 32767)) 65536

unfoldable pub sum_bytes : List ℕ → ℕ
sum_bytes [] = 0
sum_bytes (x ∷ xs) = x % 256 + sum_bytes xs

-- `~sum & 0xFF`
unfoldable pub compute_checksum : List ℕ → ℕ
unfolding sum_bytes
compute_checksum xs = 255 - sum_bytes xs % 256

abbrev pub IsByte : ℕ → Type 0
IsByte b = b < 256

pub clamp_bounds : (lo hi : ℕ) (v : ℤ) → lo ≤ hi → (lo ≤ clamp lo hi v) × (clamp lo hi v ≤ hi)
unfolding clamp
clamp_bounds lo hi v h = omega arith

pub compute_checksum-IsByte : (xs : List ℕ) → IsByte (compute_checksum xs)
unfolding compute_checksum
compute_checksum-IsByte xs = omega arith

-- A word is the join of its two bytes.
pub join-split : (v : ℕ) → v < 65536 → join_u16 (split_u16 v).0 (split_u16 v).1 ≡ v
unfolding join_u16 split_u16
join-split v h = omega arith

pub split-IsByte : (v : ℕ) → IsByte (split_u16 v).0 × IsByte (split_u16 v).1
unfolding split_u16
split-IsByte v = omega arith

-- A signed 16-bit number survives the way into two's complement and back.
pub i16_round_trip : (v : ℤ) → negsuc 32767 ≤ℤ v → v ≤ℤ pos 32767 → u16_to_i16 (i16_to_u16 v) ≡ v
unfolding u16_to_i16 i16_to_u16
i16_round_trip (pos n) h k = ground arith
i16_round_trip (negsuc n) h k = ground arith

pub i16_to_u16-lt : (v : ℤ) → i16_to_u16 v < 65536
unfolding i16_to_u16
i16_to_u16-lt (pos n) = ground arith
i16_to_u16-lt (negsuc n) = ground arith
