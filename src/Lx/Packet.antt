-- ===== src/Lx/Packet.antt =====
-- `_build_packet`, `_iter_valid_packets` and `_first_params`.
use robot_runtime.Prelude.{
  Bool, List, Option, [], drop, if◌then◌else◌, leb, length, ltb, nat_eq, none, not, some, string_eq,
  suc, take, true, zero, ℕ, ◌%◌, ◌&&◌, ◌++◌, ◌+◌, ◌-◌, ◌==◌, ◌∷◌,
}
use robot_runtime.Lx.Words.{clamp, compute_checksum}
use robot_runtime.Prelude.Int.{leb_ℤ, pos, ℤ}

pub record Packet : Type 0 where
  pub sid : ℕ
  pub cmd : ℕ
  pub params : List ℕ

unfoldable pub payload_of : List ℕ → List ℕ
payload_of [] = []
payload_of (p ∷ ps) = p % 256 ∷ payload_of ps

-- Servo, length, command and parameters: what the checksum covers.
unfoldable pub body_of : ℕ → ℕ → List ℕ → List ℕ
body_of sid cmd payload = sid ∷ (3 + length payload) ∷ cmd ∷ payload

unfoldable pub build_packet : ℤ → ℕ → List ℕ → List ℕ
unfolding payload_of body_of clamp compute_checksum
build_packet servo_id cmd params =
    let body = body_of (clamp 0 253 servo_id) (cmd % 256) (payload_of params) in
    0x55 ∷ 0x55 ∷ (body ++ (compute_checksum body ∷ []))

unfoldable pub build_read_packet : ℤ → ℕ → List ℕ
unfolding build_packet
build_read_packet servo_id cmd = build_packet servo_id cmd []

abbrev pub head_or_zero : List ℕ → ℕ
head_or_zero [] = 0
head_or_zero (x ∷ xs) = x

-- The loop of `_iter_valid_packets`: the list is `data[idx:]`, and its first five bytes are named, so
-- that `tail` is `data[idx + 5:]`. The test `idx + 6 <= n` is that `tail` is not empty. A round drops
-- a byte at least, so the length of the data is fuel enough (`Scan`).
unfoldable pub iter_from : ℕ → List ℕ → List Packet
unfolding compute_checksum
iter_from zero bytes = []
iter_from (suc fuel) (b0 ∷ b1 ∷ sid ∷ len ∷ cmd ∷ t ∷ ts) =
    let size = len % 256 in
    let total = size + 3 in
    let tail = t ∷ ts in
    let params = take (total - 6) tail in
    let checksum = head_or_zero (drop (total - 6) tail) in
    let skip = iter_from fuel (b1 ∷ sid ∷ len ∷ cmd ∷ tail) in
    let rest = iter_from fuel (drop (total - 5) tail) in
    if not (b0 == 0x55 && b1 == 0x55)
    then skip
    else if ltb total 6
    then skip
    else if ltb (length tail + 5) total
    then []
    else if checksum == compute_checksum (sid ∷ len ∷ cmd ∷ params)
    then record { sid = sid; cmd = cmd; params = params } ∷ rest
    else rest
iter_from _ _ = []

unfoldable pub iter_valid_packets : List ℕ → List Packet
unfolding iter_from
iter_valid_packets bytes = iter_from (length bytes) bytes

-- `expected_servo_id is None or sid == expected_servo_id`
unfoldable pub id_matches : Option ℤ → ℕ → Bool
id_matches none sid = true
id_matches (some e) sid = leb_ℤ e (pos sid) && leb_ℤ (pos sid) e

unfoldable pub first_match : ℕ → Option ℤ → ℕ → List Packet → Option Packet
unfolding id_matches
first_match cmd expected min_len [] = none
first_match cmd expected min_len (p ∷ ps) =
    if p.cmd == cmd && id_matches expected p.sid && leb min_len (length p.params)
    then some p
    else first_match cmd expected min_len ps

unfoldable pub first_params : List ℕ → ℕ → Option ℤ → ℕ → Option Packet
unfolding iter_valid_packets first_match
first_params bytes cmd expected min_len =
    first_match cmd expected min_len (iter_valid_packets bytes)
