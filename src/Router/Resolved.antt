-- ===== src/Router/Resolved.antt =====
-- Which protocol the registry gives.
use mathlib.Core.Path.{subst}
use robot_runtime.Prelude.{
  Bool-cases, Option, String, ap, false, inl, inr, lower, nat_eq, none, refl, some, string_eq,
  strip, true, ◌==◌, ◌≡◌, ◌≢◌,
}
use robot_runtime.Prelude.Int.{int_eq, ℤ}
use robot_runtime.Router.Registry.{
  Registry, by_priority, cached_protocol, find, get_protocol, given, is_valid_protocol, kept,
  normalize_protocol, put_protocol, range_protocol, set_protocol,
}

pub valid_normal : (p : String) → is_valid_protocol p ≡ true → normalize_protocol (some p) ≡ some p
unfolding is_valid_protocol normalize_protocol lower strip
valid_normal p h = elim (Bool-cases (p == "zl")) [
  | inl zl ↦ rw ((string_eq.beq_iff p "zl").0 zl) refl
  | inr no_zl ↦ elim (Bool-cases (p == "lx")) [
    | inl lx ↦ rw ((string_eq.beq_iff p "lx").0 lx) refl
    | inr no_lx ↦ absurd (let bad : false ≡ true = rw (no_zl, no_lx) at h in cc)
  ]
]

normalized_valid :
    (value : Option String) (p : String)
    → normalize_protocol value ≡ some p
    → is_valid_protocol p ≡ true
unfolding normalize_protocol
normalized_valid none p h = cc
normalized_valid (some value) p h = elim (Bool-cases (is_valid_protocol (lower (strip value)))) [
  | inl good ↦
      let found : some (lower (strip value)) ≡ some p = rw good at h in
      let same : lower (strip value) ≡ p = cc in subst (λ x. is_valid_protocol x ≡ true) same good
  | inr bad ↦ absurd (let nothing : none ≡ some p = rw bad at h in cc)
]

module _ (sid : ℤ) (p source : String) (r : Registry) where
  find_newest :
      normalize_protocol (some p) ≡ some p
      → cached_protocol (find sid (put_protocol sid (some p) source r).cache_map) ≡ some p
  unfolding cached_protocol find put_protocol kept
  find_newest normal = rw ((int_eq.beq_iff sid sid).1 refl, normal) refl

  find_other :
      (other : ℤ)
      → other ≢ sid
      → find other (put_protocol sid (some p) source r).cache_map ≡ find other r.cache_map
  unfolding find put_protocol
  find_other other apart = elim (Bool-cases (other == sid)) [
    | inl same ↦ absurd (apart ((int_eq.beq_iff other sid).0 same))
    | inr differ ↦ rw differ refl
  ]

  pub get_put :
      normalize_protocol (some p) ≡ some p
      → get_protocol sid (put_protocol sid (some p) source r)
        ≡ by_priority (given (find sid r.manual_map)) (some p) (range_protocol sid r)
  unfolding get_protocol put_protocol range_protocol
  get_put normal =
      ap (λ c. by_priority (given (find sid r.manual_map)) c (range_protocol sid r))
        (find_newest normal)

  get_put_other :
      (other : ℤ)
      → other ≢ sid
      → get_protocol other (put_protocol sid (some p) source r) ≡ get_protocol other r
  unfolding get_protocol put_protocol range_protocol
  get_put_other other apart =
      ap
        (λ c.
          by_priority (given (find other r.manual_map)) (cached_protocol c)
            (range_protocol other r))
        (find_other other apart)

-- Once a protocol is set, the registry gives it for that servo, from its cache, unless the manual map
-- names one, which stays; for every other servo nothing changes.
pub get-set_protocol :
    (sid other : ℤ) (protocol p source : String) (r : Registry)
    → normalize_protocol (some protocol) ≡ some p
    → other ≢ sid
    → (get_protocol sid (set_protocol sid protocol source r)
        ≡ by_priority (given (find sid r.manual_map)) (some p) (range_protocol sid r))
      × (get_protocol other (set_protocol sid protocol source r) ≡ get_protocol other r)
unfolding set_protocol
get-set_protocol sid other protocol p source r known apart =
    let normal = valid_normal p (normalized_valid (some protocol) p known) in
    rw known (get_put sid p source r normal, get_put_other sid p source r other apart)
