-- ===== src/Motion/Feedback.antt =====
-- `SingleGoalAdmission`, `evaluate_target_feedback` and `StablePositionTracker`. Times are numbers of
-- ticks. The lock of the admission is held for a whole method, so calls run one after the other.
use robot_runtime.Prelude.{
  Bool, List, Option, String, [], false, if◌then◌else◌, leb, ltb, nat_eq, none, some, string_eq,
  suc, true, ℕ, ◌&&◌, ◌+◌, ◌==◌, ◌∷◌,
}
use robot_runtime.Prelude.Int.{leb_ℤ, neg_part, pos, pos_part, ℤ, ◌-ℤ◌}

pub record ActuatorObservation : Type 0 where
  pub position_raw : ℤ
  pub status : String
  pub reason : String
  pub recoverable : Bool
  pub observed_monotonic : ℕ

-- The slot of `SingleGoalAdmission`: whether it is occupied.
unfoldable pub try_acquire : Bool → Bool × Bool
try_acquire occupied = if occupied then (true, false) else (true, true)

unfoldable pub release : Bool → Bool
release occupied = false

-- A mapping from an actuator to what is seen of it, the dict as an association list.
unfoldable pub observation_of : ℕ → List (ℕ × ActuatorObservation) → Option ActuatorObservation
observation_of actuator_id [] = none
observation_of actuator_id (entry ∷ entries) =
    if actuator_id == entry.0 then some entry.1 else observation_of actuator_id entries

-- `abs(int(position_raw) - int(target_raw)) <= int(tolerance)`
unfoldable pub is_within : ℤ → ℤ → ℕ → Bool
is_within position target tolerance =
    let gap = position -ℤ target in leb (pos_part gap + neg_part gap) tolerance

-- One round of the loop: the count and the first error so far, and the target's observation.
unfoldable pub count_target :
    ℕ
    → ℕ
    → ℤ
    → Option ActuatorObservation
    → ℕ × Option ActuatorObservation
    → ℕ × Option ActuatorObservation
unfolding is_within
count_target issued tolerance target none acc = acc
count_target issued tolerance target (some o) acc =
    if ltb o.observed_monotonic issued
    then acc
    else if o.status == "error"
    then (acc.0, elim acc.1 [ none ↦ some o | some first ↦ some first ])
    else if is_within o.position_raw target tolerance
    then (suc acc.0, acc.1)
    else acc

unfoldable pub evaluate_from :
    List (ℕ × ActuatorObservation)
    → ℕ
    → ℕ
    → List (ℕ × ℤ)
    → ℕ × Option ActuatorObservation
    → ℕ × Option ActuatorObservation
evaluate_from observations issued tolerance [] acc = acc
evaluate_from observations issued tolerance (target ∷ targets) acc =
    evaluate_from observations issued tolerance targets
      (count_target issued tolerance target.1 (observation_of target.0 observations) acc)

unfoldable pub evaluate_target_feedback :
    List (ℕ × ℤ) → List (ℕ × ActuatorObservation) → ℕ → ℕ → ℕ × Option ActuatorObservation
unfolding evaluate_from
evaluate_target_feedback targets observations issued tolerance =
    evaluate_from observations issued tolerance targets (0, none)

-- `StablePositionTracker`; the constructor refuses a count that is not positive.
pub record Tracker : Type 0 where
  pub required_samples : ℕ
  pub consecutive_samples : ℕ

unfoldable pub new_tracker : ℤ → Option Tracker
new_tracker required =
    if leb_ℤ required (pos 0)
    then none
    else some (record { required_samples = pos_part required; consecutive_samples = 0 })

unfoldable pub is_hit : ℕ × ℕ → Bool
is_hit counts = ltb 0 counts.1 && counts.0 == counts.1

unfoldable pub update : ℕ × ℕ → Tracker → Tracker × Bool
unfolding is_hit
update counts t =
    let samples = if is_hit counts then suc t.consecutive_samples else 0 in
    (record t { consecutive_samples = samples }, leb t.required_samples samples)
