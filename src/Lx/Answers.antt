-- ===== src/Lx/Answers.antt =====
-- Answers behind noise, and the values read back from them.
use native.Mathlib.Nat.{zero-add, suc-add, mod-eq_of_lt}
use robot_runtime.Prelude.{
  All, List, Option, [], ap, arith, drop, length, length-append, refl, some, suc, sym, true, ℕ, ◌%◌,
  ◌++◌, ◌+◌, ◌<◌, ◌∙◌, ◌∷◌, ◌≡◌, ◌≢◌, ◌≤◌,
}
use robot_runtime.Lx.Commands.{cmd_pos_read}
use robot_runtime.Lx.Decode.{decode_pos_response}
use robot_runtime.Lx.Packet.{
  Packet, build_packet, first_params, id_matches, iter_from, iter_valid_packets, payload_of,
}
use robot_runtime.Lx.RoundTrip.{iter_from-build_packet, payload_length}
use robot_runtime.Lx.Scan.{iter_from_short}
use robot_runtime.Lx.Words.{clamp, i16_round_trip, i16_to_u16, i16_to_u16-lt, join-split, split_u16}
use robot_runtime.Prelude.Int.{negsuc, pos, ℤ, ◌≤ℤ◌}

-- Bytes that are no header are skipped.
pub skip_noise :
    (f b0 : ℕ) (bytes : List ℕ) → b0 ≢ 0x55 → iter_from (suc f) (b0 ∷ bytes) ≡ iter_from f bytes
unfolding iter_from
skip_noise f b0 (b1 ∷ sid ∷ len ∷ cmd ∷ t ∷ ts) h = ground arith
skip_noise f b0 [] h = sym (iter_from_short f [] (omega arith))
skip_noise f b0 (a ∷ []) h = sym (iter_from_short f (a ∷ []) (omega arith))
skip_noise f b0 (a ∷ b ∷ []) h = sym (iter_from_short f (a ∷ b ∷ []) (omega arith))
skip_noise f b0 (a ∷ b ∷ c ∷ []) h = sym (iter_from_short f (a ∷ b ∷ c ∷ []) (omega arith))
skip_noise f b0 (a ∷ b ∷ c ∷ d ∷ []) h = sym (iter_from_short f (a ∷ b ∷ c ∷ d ∷ []) (omega arith))

-- Noise holds no header byte.
abbrev pub IsNoise : List ℕ → Type 0
IsNoise noise = All (λ b. b ≢ 0x55) noise

skip_all :
    (f : ℕ) (noise bytes : List ℕ)
    → IsNoise noise
    → iter_from (length noise + f) (noise ++ bytes) ≡ iter_from f bytes
skip_all f [] bytes h = rw zero-add
skip_all f (b ∷ noise) bytes h =
    rw (suc-add) (skip_noise (length noise + f) b (noise ++ bytes) h.0 ∙ skip_all f noise bytes h.1)

first_of_packets :
    (bytes : List ℕ) (cmd : ℕ) (expected : Option ℤ) (min_len : ℕ) (p : Packet) (ps : List Packet)
    → iter_valid_packets bytes ≡ p ∷ ps
    → p.cmd ≡ cmd
    → id_matches expected p.sid ≡ true
    → min_len ≤ length p.params
    → first_params bytes cmd expected min_len ≡ some p
unfolding first_params
first_of_packets bytes cmd expected min_len p ps e c i m = rw e (ground arith)

clamp_small : (sid : ℕ) → sid ≤ 253 → clamp 0 253 (pos sid) ≡ sid
unfolding clamp
clamp_small sid h = omega arith

same_id : (sid : ℕ) → id_matches (some (pos sid)) sid ≡ true
unfolding id_matches
same_id sid = ground arith

-- A packet is not empty, so the fuel is a successor.
count :
    (servo_id : ℤ) (cmd : ℕ) (params rest : List ℕ)
    → length params ≤ 252
    → let bytes = build_packet servo_id cmd params ++ rest in
      iter_from (length bytes) bytes
      ≡ record { sid = clamp 0 253 servo_id; cmd = cmd % 256; params = payload_of params }
        ∷ iter_from (length (drop 1 bytes)) rest
unfolding build_packet
count servo_id cmd params rest h =
    iter_from-build_packet (length (drop 1 (build_packet servo_id cmd params ++ rest))) servo_id cmd
      params rest h

packets-build_packet :
    (noise : List ℕ) (servo_id : ℤ) (cmd : ℕ) (params rest : List ℕ)
    → IsNoise noise
    → length params ≤ 252
    → iter_valid_packets (noise ++ (build_packet servo_id cmd params ++ rest))
      ≡ record { sid = clamp 0 253 servo_id; cmd = cmd % 256; params = payload_of params }
        ∷ iter_from (length (drop 1 (build_packet servo_id cmd params ++ rest))) rest
unfolding iter_valid_packets
packets-build_packet noise servo_id cmd params rest n h =
    ap (λ f. iter_from f (noise ++ (build_packet servo_id cmd params ++ rest)))
      (length-append noise (build_packet servo_id cmd params ++ rest))
    ∙ skip_all (length (build_packet servo_id cmd params ++ rest)) noise _ n
    ∙ count servo_id cmd params rest h

-- An answer of the expected servo is found behind noise and in front of anything: its packet has the
-- servo, the command and the parameters that it was built of.
pub first_params-build_packet :
    (noise : List ℕ) (sid cmd min_len : ℕ) (params rest : List ℕ)
    → IsNoise noise
    → sid ≤ 253
    → cmd < 256
    → length params ≤ 252
    → min_len ≤ length params
    → first_params
        (noise ++ (build_packet (pos sid) cmd params ++ rest))
        cmd
        (some (pos sid))
        min_len
      ≡ some (record { sid = sid; cmd = cmd; params = payload_of params })
first_params-build_packet noise sid cmd min_len params rest n small known short enough =
    first_of_packets _ cmd (some (pos sid)) min_len
      (record { sid = sid; cmd = cmd; params = payload_of params })
      (iter_from (length (drop 1 (build_packet (pos sid) cmd params ++ rest))) rest)
      (packets-build_packet noise (pos sid) cmd params rest n short
        ∙ rw (clamp_small sid small, mod-eq_of_lt known))
      refl (same_id sid) (omega (arith, payload_length params))

-- The bytes of one word and of two.
abbrev pub word_bytes : ℕ → List ℕ
word_bytes v = (split_u16 v).0 ∷ (split_u16 v).1 ∷ []

payload_word : (v : ℕ) → payload_of (word_bytes v) ≡ word_bytes v
unfolding payload_of split_u16
payload_word v = ground arith

-- A servo's signed position survives: an answer to the position request that carries a number of the
-- signed 16-bit range in two's complement, sent by the expected servo, behind noise without a header
-- byte and in front of any bytes, is decoded to that number.
pub position_round_trip :
    (noise : List ℕ) (sid : ℕ) (v : ℤ) (rest : List ℕ)
    → IsNoise noise
    → sid ≤ 253
    → negsuc 32767 ≤ℤ v
    → v ≤ℤ pos 32767
    → decode_pos_response
        (noise ++ (build_packet (pos sid) cmd_pos_read (word_bytes (i16_to_u16 v)) ++ rest))
        (some (pos sid))
      ≡ some v
unfolding decode_pos_response
position_round_trip noise sid v rest n small low high =
    rw
      (first_params-build_packet noise sid cmd_pos_read 2 (word_bytes (i16_to_u16 v)) rest n small
        (omega arith) (omega arith) (omega arith))
      (rw (payload_word, join-split (i16_to_u16 v) (i16_to_u16-lt v), i16_round_trip v low high))
