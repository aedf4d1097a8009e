-- ===== src/Router/Pending.antt =====
-- Which servos are queued, probed and pending.
use mathlib.Core.Path.{subst}
use robot_runtime.Prelude.{
  Bool, Bool-cases, List, [], ap, arith, contains, discard, false, if◌then◌else◌, inl, inr, ltb,
  nat_eq, not, refl, string_eq, suc, sym, true, ℕ, ◌++◌, ◌+◌, ◌-◌, ◌==◌, ◌∙◌, ◌∷◌, ◌≡◌, ◌≤◌,
}
use robot_runtime.Prelude.Int.{int_eq, ℤ}
use robot_runtime.Prelude.Window.{contains-discard, meets, parts}
use robot_runtime.Router.Probing.{
  Probes, Reaches, Step, after, at_start, finish_probe, finished, last_of, schedule_runtime_probe,
  scheduled, take_from, take_probe, taken,
}
use robot_runtime.Router.Registry.{find}

unfoldable pub occurrences : ℤ → List ℤ → ℕ
occurrences y [] = 0
occurrences y (x ∷ xs) = let rest = occurrences y xs in if y == x then suc rest else rest

occurrences-append :
    (y : ℤ) (xs ys : List ℤ) → occurrences y (xs ++ ys) ≡ occurrences y xs + occurrences y ys
unfolding occurrences
occurrences-append y [] ys = omega arith
occurrences-append y (x ∷ xs) ys =
    let rest = occurrences-append y xs ys in
    elim (Bool-cases (y == x)) [ inl same ↦ rw same (omega arith) | inr other ↦ rw other rest ]

occurrences-discard :
    (y sid : ℤ) (xs : List ℤ)
    → occurrences y (discard sid xs) ≡ (if sid == y then 0 else occurrences y xs)
unfolding occurrences discard
occurrences-discard y sid [] = elim (Bool-cases (sid == y)) [
  | inl same ↦ rw same refl
  | inr other ↦ rw other refl
]
occurrences-discard y sid (x ∷ xs) =
    let rest = occurrences-discard y sid xs in
    elim (Bool-cases (sid == x)) [
      | inl h ↦ rw h (elim (Bool-cases (y == x)) [
        | inl k ↦ rw k (rest ∙ rw (meets sid y x h k) refl)
        | inr k ↦ rw k rest
      ])
      | inr h ↦ rw h (elim (Bool-cases (y == x)) [
        | inl k ↦ rw k (ap suc rest ∙ rw (parts sid y x h k) refl)
        | inr k ↦ rw k rest
      ])
    ]

single : (y x : ℤ) → y == x ≡ true → occurrences y (x ∷ []) ≡ 1
unfolding occurrences
single y x same = rw same refl

no_single : (y x : ℤ) → y == x ≡ false → occurrences y (x ∷ []) ≡ 0
unfolding occurrences
no_single y x other = rw other refl

member_occurs : (y : ℤ) (xs : List ℤ) → contains y xs ≡ true → 1 ≤ occurrences y xs
unfolding occurrences contains
member_occurs y [] h = cc
member_occurs y (x ∷ xs) h = elim (Bool-cases (y == x)) [
  | inl same ↦ rw same (omega arith)
  | inr other ↦ rw other (member_occurs y xs (rw other at h))
]

at_most_one :
    (known : Bool) (queued running : ℕ)
    → queued + running ≡ (if known then 1 else 0)
    → 1 ≤ running
    → queued + 0 ≡ 0
at_most_one true queued running h k = omega arith
at_most_one false queued running h k = omega arith

-- An identifier is pending when it is queued or running, and it is so once.
pub record IsOnce (p : Probes) : Type 0 where
  pub once :
      (y : ℤ)
      → occurrences y p.queue + occurrences y p.running ≡ (if contains y p.pending then 1 else 0)

schedule-IsOnce :
    (sid : ℤ) (now : ℕ) (p : Probes) → IsOnce p → IsOnce (schedule_runtime_probe sid now p).0
unfolding schedule_runtime_probe
schedule-IsOnce sid now p h = elim (Bool-cases (not p.enabled)) [
  | inl off ↦ rw off h
  | inr on ↦ rw on (elim (Bool-cases (ltb (now - last_of (find sid p.last_attempt)) p.interval)) [
    | inl early ↦ rw early h
    | inr late ↦ rw late (elim (Bool-cases (contains sid p.pending)) [
      | inl known ↦ rw known h
      | inr fresh ↦ rw fresh (queued sid p h fresh)
    ])
  ])
]
  where
    queued :
        (id : ℤ) (q : Probes)
        → IsOnce q
        → contains id q.pending ≡ false
        → IsOnce (record q {
          last_attempt = (id, now) ∷ q.last_attempt;
          pending = id ∷ q.pending;
          queue = q.queue ++ (id ∷ []);
        })
    queued id q v fresh = record {
      once = λ y.
          let k = v.once y in
          let longer = occurrences-append y q.queue (id ∷ []) in
          elim (Bool-cases (y == id)) [
            | inl same ↦
                let outside : contains y q.pending ≡ false =
                  subst (λ w. contains w q.pending ≡ false) (sym ((int_eq.beq_iff y id).0 same))
                    fresh in
                rw same (omega (arith, longer, single y id same, rw outside at k))
            | inr other ↦ rw other (omega (arith, longer, no_single y id other, k))
          ];
    }

take-IsOnce :
    (queue : List ℤ) (p : Probes) → p.queue ≡ queue → IsOnce p → IsOnce (take_from queue p)
unfolding take_from occurrences
take-IsOnce [] p e h = h
take-IsOnce (sid ∷ rest) p e h = record {
  once = λ y.
      let k = rw e at (h.once y) in
      elim (Bool-cases (y == sid)) [
        | inl same ↦ rw same (omega (arith, rw same at k))
        | inr other ↦ rw other (rw other at k)
      ];
}

finish-IsOnce :
    (sid : ℤ) (p : Probes) → contains sid p.running ≡ true → IsOnce p → IsOnce (finish_probe sid p)
unfolding finish_probe
finish-IsOnce sid p there h = record {
  once = λ y.
      let k = h.once y in
      elim (Bool-cases (sid == y)) [
        | inl same ↦
            let mine =
              subst (λ w. contains w p.running ≡ true) ((int_eq.beq_iff sid y).0 same) there in
            rw (occurrences-discard y sid p.running, contains-discard y sid p.pending, same)
              (at_most_one (contains y p.pending) (occurrences y p.queue) (occurrences y p.running)
                k (member_occurs y p.running mine))
        | inr other ↦
            rw (occurrences-discard y sid p.running, contains-discard y sid p.pending, other) k
      ];
}

Step-IsOnce : (p q : Probes) → Step p q → IsOnce p → IsOnce q
unfolding take_probe
Step-IsOnce _ _ (scheduled p sid now) h = schedule-IsOnce sid now p h
Step-IsOnce _ _ (taken p) h = take-IsOnce p.queue p refl h
Step-IsOnce _ _ (finished p sid there) h = finish-IsOnce sid p there h

reach-IsOnce : (start p : Probes) → IsOnce start → Reaches start p → IsOnce p
reach-IsOnce start _ h at_start = h
reach-IsOnce start _ h (after p q r s) = Step-IsOnce p q s (reach-IsOnce start p h r)

-- However commands and timer callbacks interleave, from a start without probes: an identifier is in the
-- queue or with a callback once at most, both counted together, and it is marked as pending exactly
-- while it is.
pub probes_never_overlap :
    (enabled : Bool) (interval : ℕ) (p : Probes) (y : ℤ)
    → Reaches
        (record {
          enabled = enabled;
          interval = interval;
          last_attempt = [];
          pending = [];
          queue = [];
          running = [];
        })
        p
    → occurrences y p.queue + occurrences y p.running ≡ (if contains y p.pending then 1 else 0)
unfolding occurrences contains
probes_never_overlap enabled interval p y r =
    (reach-IsOnce _ p (record { once = λ z. omega arith }) r).once y
