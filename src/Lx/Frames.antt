-- ===== src/Lx/Frames.antt =====
-- What the scanner takes for frames.
use mathlib.Core.Path.{subst}
use mathlib.Core.List.{append_assoc}
use robot_runtime.Prelude.{
  All, All-map, Bool-cases, List, Option, [], ap, arith, drop, false, inl, inr, leb, length, ltb,
  nat_eq, not, refl, some, string_eq, suc, sym, take, take-append-drop, true, zero, ℕ, ◌%◌, ◌&&◌,
  ◌++◌, ◌+◌, ◌-◌, ◌<◌, ◌==◌, ◌∙◌, ◌∷◌, ◌≡◌, ◌≤◌,
}
use robot_runtime.Lx.Packet.{
  Packet, first_match, first_params, head_or_zero, id_matches, iter_from, iter_valid_packets,
}
use robot_runtime.Lx.Scan.{iter_from_short}
use robot_runtime.Lx.Words.{compute_checksum}
use robot_runtime.Prelude.Int.{ℤ}

-- The bytes of a frame around a packet.
abbrev frame : ℕ → Packet → List ℕ
frame len p =
    let body = p.sid ∷ len ∷ p.cmd ∷ p.params in
    0x55 ∷ 0x55 ∷ (body ++ (compute_checksum body ∷ []))

-- The packet stands in the data, in a frame with the right length byte and checksum.
pub record IsFramed (bytes : List ℕ) (p : Packet) : Type 0 where
  pub before : List ℕ
  pub after : List ℕ
  pub len : ℕ
  pub place : bytes ≡ before ++ (frame len p ++ after)
  pub sized : len % 256 ≡ 3 + length p.params

Framed_later : (x : ℕ) (bytes : List ℕ) (p : Packet) → IsFramed bytes p → IsFramed (x ∷ bytes) p
Framed_later x bytes p h = record {
  before = x ∷ h.before;
  after = h.after;
  len = h.len;
  place = ap (◌∷◌ x) h.place;
  sized = h.sized;
}

Framed_after : (xs bytes : List ℕ) (p : Packet) → IsFramed bytes p → IsFramed (xs ++ bytes) p
Framed_after [] bytes p h = h
Framed_after (x ∷ xs) bytes p h = Framed_later x (xs ++ bytes) p (Framed_after xs bytes p h)

drop_step :
    (n : ℕ) (xs : List ℕ) → n < length xs → drop n xs ≡ head_or_zero (drop n xs) ∷ drop (suc n) xs
drop_step n [] h = absurd (omega arith)
drop_step zero (x ∷ xs) h = refl
drop_step (suc n) (x ∷ xs) h = drop_step n xs (omega arith)

length-take_lem : (n : ℕ) (xs : List ℕ) → n ≤ length xs → length (take n xs) ≡ n
length-take_lem zero xs h = refl
length-take_lem (suc n) [] h = absurd (omega arith)
length-take_lem (suc n) (x ∷ xs) h = ap suc (length-take_lem n xs (omega arith))

-- The first `n` items, the next one, and the others.
split_at :
    (n : ℕ) (xs : List ℕ)
    → n < length xs
    → xs ≡ take n xs ++ (head_or_zero (drop n xs) ∷ drop (suc n) xs)
split_at n xs h = sym (take-append-drop n xs) ∙ ap (λ ys. take n xs ++ ys) (drop_step n xs h)

module _ (sid len cmd : ℕ) (tail : List ℕ) where
  abbrev params : List ℕ
  params = take (len % 256 + 3 - 6) tail

  IsFramed-here :
      6 ≤ len % 256 + 3
      → len % 256 + 3 ≤ length tail + 5
      → head_or_zero (drop (len % 256 + 3 - 6) tail) ≡ compute_checksum (sid ∷ len ∷ cmd ∷ params)
      → IsFramed
          (0x55 ∷ 0x55 ∷ sid ∷ len ∷ cmd ∷ tail)
          (record { sid = sid; cmd = cmd; params = params })
  IsFramed-here long fits sum = record {
    before = [];
    after = drop (suc (len % 256 + 3 - 6)) tail;
    len = len;
    place =
        ap (λ xs. 0x55 ∷ 0x55 ∷ sid ∷ len ∷ cmd ∷ xs)
          (split_at (len % 256 + 3 - 6) tail (omega arith)
            ∙ ap (λ c. params ++ (c ∷ drop (suc (len % 256 + 3 - 6)) tail)) sum
            ∙ sym (
                append_assoc params (compute_checksum (sid ∷ len ∷ cmd ∷ params) ∷ [])
                  (drop (suc (len % 256 + 3 - 6)) tail)));
    sized = omega (arith, length-take_lem (len % 256 + 3 - 6) tail (omega arith));
  }

  IsFramed-rest :
      (b0 b1 m : ℕ) (p : Packet)
      → IsFramed (drop m tail) p
      → IsFramed (b0 ∷ b1 ∷ sid ∷ len ∷ cmd ∷ tail) p
  IsFramed-rest b0 b1 m p h =
      subst (λ xs. IsFramed (b0 ∷ b1 ∷ sid ∷ len ∷ cmd ∷ xs) p) (take-append-drop m tail)
        (Framed_after (b0 ∷ b1 ∷ sid ∷ len ∷ cmd ∷ take m tail) (drop m tail) p h)

module _ (b0 b1 sid len cmd t : ℕ) (ts : List ℕ) where
  abbrev IsSound : List ℕ → List Packet → Type 0
  IsSound bytes packets = All (IsFramed bytes) packets

  -- One round is sound if the two scans that may follow are.
  round-IsSound :
      (f : ℕ)
      → IsSound (b1 ∷ sid ∷ len ∷ cmd ∷ t ∷ ts) (iter_from f (b1 ∷ sid ∷ len ∷ cmd ∷ t ∷ ts))
      → IsSound
          (drop (len % 256 + 3 - 5) (t ∷ ts))
          (iter_from f (drop (len % 256 + 3 - 5) (t ∷ ts)))
      → IsSound
          (b0 ∷ b1 ∷ sid ∷ len ∷ cmd ∷ t ∷ ts)
          (iter_from (suc f) (b0 ∷ b1 ∷ sid ∷ len ∷ cmd ∷ t ∷ ts))
  unfolding iter_from
  round-IsSound f skip rest = elim (Bool-cases (not (b0 == 0x55 && b1 == 0x55))) [
    | inl e ↦ rw e later
    | inr e ↦ rw e (elim (Bool-cases (ltb (len % 256 + 3) 6)) [
      | inl e' ↦ rw e' later
      | inr long ↦ rw long (elim (Bool-cases (ltb (length (t ∷ ts) + 5) (len % 256 + 3))) [
        | inl e' ↦ rw e' tt
        | inr fits ↦
            rw fits
              (elim (Bool-cases (
                head_or_zero (drop (len % 256 + 3 - 6) (t ∷ ts))
                == compute_checksum (sid ∷ len ∷ cmd ∷ params sid len cmd (t ∷ ts)))) [
                  | inl sum ↦ rw sum (
                    rw (zero_of e) (
                        rw (one_of e) (
                          IsFramed-here sid len cmd (t ∷ ts) (ground arith) (ground arith)
                            (ground arith))),
                    behind,
                  )
                  | inr e' ↦ rw e' behind
                ])
      ])
    ])
  ]
    where
      later :
          IsSound (b0 ∷ b1 ∷ sid ∷ len ∷ cmd ∷ t ∷ ts) (iter_from f (b1 ∷ sid ∷ len ∷ cmd ∷ t ∷ ts))
      later = All-map (λ p h. Framed_later b0 (b1 ∷ sid ∷ len ∷ cmd ∷ t ∷ ts) p h) _ skip

      behind :
          IsSound
            (b0 ∷ b1 ∷ sid ∷ len ∷ cmd ∷ t ∷ ts)
            (iter_from f (drop (len % 256 + 3 - 5) (t ∷ ts)))
      behind =
          All-map (λ p h. IsFramed-rest sid len cmd (t ∷ ts) b0 b1 (len % 256 + 3 - 5) p h) _ rest

      zero_of : not (b0 == 0x55 && b1 == 0x55) ≡ false → b0 ≡ 0x55
      zero_of e = ground arith

      one_of : not (b0 == 0x55 && b1 == 0x55) ≡ false → b1 ≡ 0x55
      one_of e = ground arith

packets_sound : (f : ℕ) (bytes : List ℕ) → All (IsFramed bytes) (iter_from f bytes)
packets_sound (suc f) (b0 ∷ b1 ∷ sid ∷ len ∷ cmd ∷ t ∷ ts) =
    round-IsSound b0 b1 sid len cmd t ts f (packets_sound f (b1 ∷ sid ∷ len ∷ cmd ∷ t ∷ ts))
      (packets_sound f (drop (len % 256 + 3 - 5) (t ∷ ts)))
packets_sound zero bytes = unfold iter_from in tt
packets_sound f bytes = rw (iter_from_short f bytes (omega arith)) tt

-- What a packet that `_first_params` returns is: it has the command, the servo and the length that
-- were asked for.
pub record IsFound (bytes : List ℕ) (cmd : ℕ) (expected : Option ℤ) (min_len : ℕ) (p : Packet)
    : Type 0 where
  pub framed : IsFramed bytes p
  pub command : p.cmd ≡ cmd
  pub servo : id_matches expected p.sid ≡ true
  pub enough : min_len ≤ length p.params

first_match_sound :
    (bytes : List ℕ) (cmd : ℕ) (expected : Option ℤ) (min_len : ℕ) (ps : List Packet) (p : Packet)
    → All (IsFramed bytes) ps
    → first_match cmd expected min_len ps ≡ some p
    → IsFound bytes cmd expected min_len p
unfolding first_match
first_match_sound bytes cmd expected min_len [] p s h = cc
first_match_sound bytes cmd expected min_len (q ∷ qs) p s h =
    elim (Bool-cases (q.cmd == cmd && id_matches expected q.sid && leb min_len (length q.params))) [
      | inl fits ↦
          let same : some q ≡ some p = rw fits at h in
          subst (IsFound bytes cmd expected min_len) (cc same) (record {
            framed = s.0;
            command = ground arith;
            servo = ground arith;
            enough = ground arith;
          })
      | inr e ↦ first_match_sound bytes cmd expected min_len qs p s.1 (rw e at h)
    ]

-- Whatever bytes came in, noise and broken frames included: a packet that `_first_params` returns
-- stands in them whole, between the two header bytes and the checksum over its other bytes, with the
-- length byte that its parameters ask for; and it has the command, the servo (where one is expected)
-- and the least number of parameters that were asked for.
pub first_params_sound :
    (bytes : List ℕ) (cmd : ℕ) (expected : Option ℤ) (min_len : ℕ) (p : Packet)
    → first_params bytes cmd expected min_len ≡ some p
    → IsFound bytes cmd expected min_len p
unfolding first_params iter_valid_packets
first_params_sound bytes cmd expected min_len p h =
    first_match_sound bytes cmd expected min_len _ p (packets_sound (length bytes) bytes) h
