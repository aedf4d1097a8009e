-- ===== src/Lx/RoundTrip.antt =====
-- `_build_packet` against the scanner.
use mathlib.Core.List.{append_assoc}
use robot_runtime.Prelude.{
  List, [], ap, arith, drop, drop-append, drop-suc_append, length, length-append, refl, suc, sym,
  take, take-append, ℕ, ◌%◌, ◌++◌, ◌+◌, ◌-◌, ◌∙◌, ◌∷◌, ◌≡◌, ◌≤◌,
}
use robot_runtime.Lx.Packet.{body_of, build_packet, head_or_zero, iter_from, payload_of}
use robot_runtime.Lx.Words.{clamp, compute_checksum}
use robot_runtime.Prelude.Int.{ℤ}

round_accept :
    (f sid len cmd t : ℕ) (ts : List ℕ)
    → 6 ≤ len % 256 + 3
    → len % 256 + 3 ≤ length (t ∷ ts) + 5
    → head_or_zero (drop (len % 256 + 3 - 6) (t ∷ ts))
      ≡ compute_checksum (sid ∷ len ∷ cmd ∷ take (len % 256 + 3 - 6) (t ∷ ts))
    → iter_from (suc f) (0x55 ∷ 0x55 ∷ sid ∷ len ∷ cmd ∷ t ∷ ts)
      ≡ record { sid = sid; cmd = cmd; params = take (len % 256 + 3 - 6) (t ∷ ts) }
        ∷ iter_from f (drop (len % 256 + 3 - 5) (t ∷ ts))
unfolding iter_from
round_accept f sid len cmd t ts long fits sum = ground arith

pub payload_length : (ps : List ℕ) → length (payload_of ps) ≡ length ps
unfolding payload_of
payload_length [] = refl
payload_length (p ∷ ps) = ap suc (payload_length ps)

module _ (f sid cmd : ℕ) (payload rest : List ℕ) (short : length payload ≤ 252) where
  abbrev sum : ℕ
  sum = compute_checksum (body_of sid cmd payload)

  abbrev after_cmd : List ℕ
  after_cmd = payload ++ (sum ∷ rest)

  size_exact : (3 + length payload) % 256 + 3 - 6 ≡ length payload
  size_exact = omega arith

  size_exact' : (3 + length payload) % 256 + 3 - 5 ≡ suc (length payload)
  size_exact' = omega arith

  -- The scanner reads a whole frame, and goes on behind it.
  round_frame :
      (t : ℕ) (ts : List ℕ)
      → after_cmd ≡ t ∷ ts
      → iter_from (suc f) (0x55 ∷ 0x55 ∷ sid ∷ (3 + length payload) ∷ cmd ∷ t ∷ ts)
        ≡ record { sid = sid; cmd = cmd; params = payload } ∷ iter_from f rest
  unfolding compute_checksum body_of
  round_frame t ts e =
      round_accept f sid (3 + length payload) cmd t ts (omega arith) (omega (arith, long, short))
        (rw (size_exact, ← e, drop-append, take-append))
      ∙ rw (size_exact, size_exact', ← e, take-append, drop-suc_append)
    where
      long : length (t ∷ ts) ≡ length payload + suc (length rest)
      long = ap (λ xs. length xs) (sym e) ∙ length-append payload (sum ∷ rest)

  round_any :
      (xs : List ℕ)
      → xs ≡ after_cmd
      → iter_from (suc f) (0x55 ∷ 0x55 ∷ sid ∷ (3 + length payload) ∷ cmd ∷ xs)
        ≡ record { sid = sid; cmd = cmd; params = payload } ∷ iter_from f rest
  round_any [] e =
      absurd (omega (arith, ap (λ ys. length ys) e, length-append payload (sum ∷ rest)))
  round_any (t ∷ ts) e = round_frame t ts (sym e)

-- The scanner reads what `_build_packet` made, whatever follows, and goes on behind it.
pub iter_from-build_packet :
    (f : ℕ) (servo_id : ℤ) (cmd : ℕ) (params rest : List ℕ)
    → length params ≤ 252
    → iter_from (suc f) (build_packet servo_id cmd params ++ rest)
      ≡ record { sid = clamp 0 253 servo_id; cmd = cmd % 256; params = payload_of params }
        ∷ iter_from f rest
unfolding build_packet
iter_from-build_packet f servo_id cmd params rest h =
    round_any f (clamp 0 253 servo_id) (cmd % 256) (payload_of params) rest
      (omega (arith, payload_length params)) _ (append_assoc (payload_of params) _ rest)
