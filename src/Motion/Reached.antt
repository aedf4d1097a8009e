-- ===== src/Motion/Reached.antt =====
-- What the execution feedback counts, and which error it reports.
use mathlib.Core.Path.{subst}
use robot_runtime.Prelude.{
  All, Bool-cases, List, Option, Option-cases, [], arith, inl, inr, length, ltb, nat_eq, none, refl,
  some, string_eq, suc, true, ℕ, ◌+◌, ◌==◌, ◌↔◌, ◌∙◌, ◌∷◌, ◌≡◌, ◌≢◌, ◌≤◌, ◌⊎◌,
}
use robot_runtime.Motion.Feedback.{
  ActuatorObservation, count_target, evaluate_from, evaluate_target_feedback, is_within,
  observation_of,
}
use robot_runtime.Prelude.Int.{negsuc, pos, ℤ, ◌+ℤ◌, ◌-ℤ◌, ◌≤ℤ◌}

within_iff :
    (tolerance : ℕ) (position target : ℤ)
    → (is_within position target tolerance ≡ true)
      ↔ ((target ≤ℤ (position +ℤ pos tolerance)) × (position ≤ℤ (target +ℤ pos tolerance)))
unfolding is_within ◌+ℤ◌ ◌-ℤ◌
within_iff tolerance (pos a) (pos b) = ground arith
within_iff tolerance (pos a) (negsuc b) = ground arith
within_iff tolerance (negsuc a) (pos b) = ground arith
within_iff tolerance (negsuc a) (negsuc b) = ground arith

-- The target's actuator has an observation from after the command.
pub record IsFresh (observations : List (ℕ × ActuatorObservation)) (issued : ℕ) (target : ℕ × ℤ)
    (o : ActuatorObservation) : Type 0 where
  pub seen : observation_of target.0 observations ≡ some o
  pub after : issued ≤ o.observed_monotonic

module _ (observations : List (ℕ × ActuatorObservation)) (issued tolerance : ℕ) where
  -- It is no error, and the position is near enough.
  pub record IsReached (target : ℕ × ℤ) : Type 0 where
    pub observation : ActuatorObservation
    pub fresh : IsFresh observations issued target observation
    pub moving : observation.status ≢ "error"
    pub near_low : target.1 ≤ℤ (observation.position_raw +ℤ pos tolerance)
    pub near_high : observation.position_raw ≤ℤ (target.1 +ℤ pos tolerance)

  pub record HasError (target : ℕ × ℤ) (o : ActuatorObservation) : Type 0 where
    pub fresh : IsFresh observations issued target o
    pub failed : o.status ≡ "error"

  -- The error of the first target that has one.
  pub data FirstError : List (ℕ × ℤ) → Option ActuatorObservation → Type 0 where
    nowhere : FirstError [] none
    here :
        (target : ℕ × ℤ) (targets : List (ℕ × ℤ)) (o : ActuatorObservation)
        → HasError target o
        → FirstError (target ∷ targets) (some o)
    later :
        (target : ℕ × ℤ) (targets : List (ℕ × ℤ)) (r : Option ActuatorObservation)
        → ((o : ActuatorObservation) → ¬ HasError target o)
        → FirstError targets r
        → FirstError (target ∷ targets) r

  -- What is known of the observation of a target that is reached, or that has an error.
  reached_seen :
      (target : ℕ × ℤ) (o : ActuatorObservation)
      → observation_of target.0 observations ≡ some o
      → IsReached target
      → (issued ≤ o.observed_monotonic)
        × (o.status ≢ "error")
        × (is_within o.position_raw target.1 tolerance ≡ true)
  reached_seen target o e r =
      let seen = r.fresh.seen in
      let same : r.observation ≡ o = cc in
      subst
        (λ x.
          (issued ≤ x.observed_monotonic)
          × (x.status ≢ "error")
          × (is_within x.position_raw target.1 tolerance ≡ true))
        same
        (
          r.fresh.after,
          r.moving,
          (within_iff tolerance r.observation.position_raw target.1).1 (r.near_low, r.near_high),
        )

  error_seen :
      (target : ℕ × ℤ) (o x : ActuatorObservation)
      → observation_of target.0 observations ≡ some o
      → HasError target x
      → (issued ≤ o.observed_monotonic) × (o.status ≡ "error")
  error_seen target o x e h =
      let seen = h.fresh.seen in
      let same : x ≡ o = cc in
      subst (λ y. (issued ≤ y.observed_monotonic) × (y.status ≡ "error")) same
        (h.fresh.after, h.failed)

  count-IsReached :
      (target : ℕ × ℤ) (acc : ℕ × Option ActuatorObservation)
      → (((count_target issued tolerance target.1 (observation_of target.0 observations) acc).0
            ≡ suc acc.0)
          × IsReached target)
        ⊎ (((count_target issued tolerance target.1 (observation_of target.0 observations) acc).0
              ≡ acc.0)
            × ¬ IsReached target)
  unfolding count_target
  count-IsReached target acc = elim (Option-cases (observation_of target.0 observations)) [
    | inl e ↦ inr (rw e refl, λ r. let s = r.fresh.seen in cc)
    | inr (o, e) ↦ elim (Bool-cases (ltb o.observed_monotonic issued)) [
      | inl old ↦
          inr (rw (e, old) refl, λ r. let old_one = (reached_seen target o e r).0 in ground arith)
      | inr new_one ↦ elim (Bool-cases (o.status == "error")) [
        | inl failed ↦ inr (
          rw (e, new_one, failed) refl,
          λ r. (reached_seen target o e r).1 ((string_eq.beq_iff o.status "error").0 failed),
        )
        | inr moving ↦ elim (Bool-cases (is_within o.position_raw target.1 tolerance)) [
          | inl near ↦ inl (
            rw (e, new_one, moving, near) refl,
            record {
              observation = o;
              fresh = record { seen = e; after = ground arith };
              moving = λ k. let yes = (string_eq.beq_iff o.status "error").1 k in cc;
              near_low = ((within_iff tolerance o.position_raw target.1).0 near).0;
              near_high = ((within_iff tolerance o.position_raw target.1).0 near).1;
            },
          )
          | inr far ↦ inr (
            rw (e, new_one, moving, far) refl,
            λ r. let close = (reached_seen target o e r).2 in cc,
          )
        ]
      ]
    ]
  ]

  count_from :
      (targets : List (ℕ × ℤ)) (acc : ℕ × Option ActuatorObservation)
      → ((evaluate_from observations issued tolerance targets acc).0 ≤ acc.0 + length targets)
        × (acc.0 ≤ (evaluate_from observations issued tolerance targets acc).0)
        × (((evaluate_from observations issued tolerance targets acc).0 ≡ acc.0 + length targets)
            ↔ All IsReached targets)
  unfolding evaluate_from
  count_from [] acc = (omega arith, omega arith, (λ h. tt, λ h. omega arith))
  count_from (target ∷ targets) acc =
      let next =
        count_target issued tolerance target.1 (observation_of target.0 observations) acc in
      let (most, least, exact) = count_from targets next in
      elim (count-IsReached target acc) [
        | inl (one, reached) ↦ (
          omega arith,
          omega arith,
          (λ h. (reached, exact.0 (omega arith)), λ h. let e = exact.1 h.1 in omega arith),
        )
        | inr (zero_more, missed) ↦
            (omega arith, omega arith, (λ h. absurd (omega arith), λ h. absurd (missed h.0)))
      ]

-- The number of reached targets is that of all targets exactly when every target's actuator has an
-- observation from after the command that is no error and whose position is within the tolerance; an
-- observation that is older, or an error, counts for nothing.
pub IsReached-All_iff :
    (targets : List (ℕ × ℤ)) (observations : List (ℕ × ActuatorObservation)) (issued tolerance : ℕ)
    → ((evaluate_target_feedback targets observations issued tolerance).0 ≡ length targets)
      ↔ All (IsReached observations issued tolerance) targets
unfolding evaluate_target_feedback
IsReached-All_iff targets observations issued tolerance =
    let exact = (count_from observations issued tolerance targets (0, none)).2 in
    (λ h. exact.0 (h ∙ omega arith), λ h. exact.1 h ∙ omega arith)

module _ (observations : List (ℕ × ActuatorObservation)) (issued tolerance : ℕ) where
  error_of :
      (target : ℕ × ℤ) (acc : ℕ × Option ActuatorObservation)
      → acc.1 ≡ none
      → ((o : ActuatorObservation) × HasError observations issued tolerance target o
          × ((count_target issued tolerance target.1 (observation_of target.0 observations) acc).1
              ≡ some o))
        ⊎ (((count_target issued tolerance target.1 (observation_of target.0 observations) acc).1
              ≡ none)
            × ((o : ActuatorObservation) → ¬ HasError observations issued tolerance target o))
  unfolding count_target
  error_of target acc clear = elim (Option-cases (observation_of target.0 observations)) [
    | inl e ↦ inr (rw e clear, λ o h. let s = h.fresh.seen in cc)
    | inr (o, e) ↦ elim (Bool-cases (ltb o.observed_monotonic issued)) [
      | inl old ↦ inr (
        rw (e, old) clear,
        λ x h.
            let late = (error_seen observations issued tolerance target o x e h).0 in ground arith,
      )
      | inr new_one ↦ elim (Bool-cases (o.status == "error")) [
        | inl failed ↦ inl (
          o,
          record {
            fresh = record { seen = e; after = ground arith };
            failed = (string_eq.beq_iff o.status "error").0 failed;
          },
          rw (e, new_one, failed, clear) refl,
        )
        | inr moving ↦ inr (
          rw (e, new_one, moving) (ground (arith, clear)),
          λ x h.
              let yes =
                (string_eq.beq_iff o.status "error").1
                  (error_seen observations issued tolerance target o x e h).1 in
              cc,
        )
      ]
    ]
  ]

  -- An error that is found stays.
  error_kept :
      (targets : List (ℕ × ℤ)) (acc : ℕ × Option ActuatorObservation) (o : ActuatorObservation)
      → acc.1 ≡ some o
      → (evaluate_from observations issued tolerance targets acc).1 ≡ some o
  unfolding evaluate_from count_target
  error_kept [] acc o e = e
  error_kept (target ∷ targets) acc o e =
      error_kept targets
        (count_target issued tolerance target.1 (observation_of target.0 observations) acc) o
        (elim (Option-cases (observation_of target.0 observations)) [
          | inl absent ↦ rw absent e
          | inr (x, seen) ↦ rw seen (ground (arith, e))
        ])

  first_from :
      (targets : List (ℕ × ℤ)) (acc : ℕ × Option ActuatorObservation)
      → acc.1 ≡ none
      → FirstError observations issued tolerance targets
          (evaluate_from observations issued tolerance targets acc).1
  unfolding evaluate_from
  first_from [] acc clear = rw clear nowhere
  first_from (target ∷ targets) acc clear =
      let next =
        count_target issued tolerance target.1 (observation_of target.0 observations) acc in
      elim (error_of target acc clear) [
        | inl (o, h, e) ↦ rw (error_kept targets next o e) (here target targets o h)
        | inr (e, none_here) ↦ later target targets _ none_here (first_from targets next e)
      ]

-- The error that is reported is the one of the first target whose actuator has an error from after the
-- command, and there is none exactly when no target has one.
pub FirstError-exact :
    (targets : List (ℕ × ℤ)) (observations : List (ℕ × ActuatorObservation)) (issued tolerance : ℕ)
    → FirstError observations issued tolerance targets
        (evaluate_target_feedback targets observations issued tolerance).1
unfolding evaluate_target_feedback
FirstError-exact targets observations issued tolerance =
    first_from observations issued tolerance targets (0, none) refl
