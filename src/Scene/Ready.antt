-- ===== src/Scene/Ready.antt =====
-- What an accepted scene is.
use mathlib.Core.Path.{subst}
use robot_runtime.Prelude.{
  All, All-map, Bool, Bool-cases, List, String, contains, inl, inr, is_empty, string_eq, ◌==◌,
  Option, [], arith, false, none, not, refl, some, strip, true, ◌++◌, ◌||◌, ◌∷◌, ◌≡◌, ◌≢◌,
}
use robot_runtime.Motion.Checked.{empty_iff, fails_iff, first_reason_iff, same_iff}
use robot_runtime.Motion.Float.{whole, Float, finite, infinite, is_finite, minus_infinite, nan}
use robot_runtime.Motion.Goal.{first_reason}
use robot_runtime.Prelude.Int.{ltb_ℤ, pos, ℤ, ◌<ℤ◌, ◌≤ℤ◌}
use robot_runtime.Scene.Gate.{
  Gate, SceneSnapshot, age_of, commit_if_accepted, committed, evaluate_latest, evaluate_snapshot,
  gate_checks,
}
use robot_runtime.Scene.Policy.{
  Policy, SceneObject, exceeds, any_object, has_duplicate, object_is_finite, stripped_ids,
  policy_checks, target_checks, target_reason, targets_of, units,
}

-- A number, neither a NaN nor an infinity.
abbrev IsNumber : Float → Type 0
IsNumber x = (n : ℤ) × (x ≡ finite n)

-- The coordinates, the sizes and the confidence of an object are numbers, the last from 0 to 1.
pub record IsSolid (o : SceneObject) : Type 0 where
  pub centre : IsNumber o.x × IsNumber o.y × IsNumber o.z
  pub size : IsNumber o.size_x × IsNumber o.size_y × IsNumber o.size_z
  pub confidence : IsNumber o.confidence
  pub at_least : pos 0 ≤ℤ units o.confidence
  pub at_most : units o.confidence ≤ℤ pos (whole 1)

abbrev Distinct : List String → Type 0
Distinct [] = Unit {0}
Distinct (id ∷ ids) = All (λ other. id ≢ other) ids × Distinct ids

-- The bounding box of a target is within the envelope, it has a size, and the detector is sure enough.
pub record IsInEnvelope (p : Policy) (t : SceneObject) : Type 0 where
  pub confident : pos p.minimum_confidence ≤ℤ units t.confidence
  pub sized : (pos 0 <ℤ units t.size_x) × (pos 0 <ℤ units t.size_y) × (pos 0 <ℤ units t.size_z)
  pub near :
      (exceeds p.maximum_extent t.x t.size_x ≡ false)
      × (exceeds p.maximum_extent t.y t.size_y ≡ false)
      × (exceeds p.maximum_extent t.z t.size_z ≡ false)

pub record IsReady (session_id target_group : String) (now : Float) (g : Gate) : Type 0 where
  pub scene : SceneSnapshot
  pub present : g.latest ≡ some scene
  pub is_ok : scene.status ≡ "ok"
  pub observed : scene.observation_id ≢ ""
  pub same_session : scene.session_id ≡ strip session_id
  pub time : ℤ
  pub clock : now ≡ finite time
  pub not_early : pos 0 ≤ℤ age_of time scene.received
  pub not_stale : age_of time scene.received ≤ℤ pos g.max_age
  pub frame : scene.frame_id ≡ g.policy.required_frame_id
  pub named : All (λ id. id ≢ "") (stripped_ids scene.objects)
  pub distinct : Distinct (stripped_ids scene.objects)
  pub solid : All IsSolid scene.objects
  pub target : SceneObject
  pub only_target : targets_of (strip target_group) scene.objects ≡ target ∷ []
  pub solid_target : IsSolid target
  pub in_envelope : IsInEnvelope g.policy target

All-split :
    (xs ys : List (Option String))
    → All (λ c. c ≡ none) (xs ++ ys)
    → All (λ c. c ≡ none) xs × All (λ c. c ≡ none) ys
All-split [] ys h = (tt, h)
All-split (x ∷ xs) ys h = let rest = All-split xs ys h.1 in ((h.0, rest.0), rest.1)

envelope_of :
    (p : Policy) (t : SceneObject) → first_reason (target_checks p t) ≡ none → IsInEnvelope p t
unfolding target_checks
envelope_of p t h =
    let checks = (first_reason_iff (target_checks p t)).0 h in
    let low = (fails_iff _ _).0 checks.0 in
    let flat = (fails_iff _ _).0 checks.1.0 in
    let far = (fails_iff _ _).0 checks.1.1.0 in
    record { confident = ground arith; sized = ground arith; near = ground arith }

the_target :
    (p : Policy) (targets : List SceneObject)
    → target_reason p targets ≡ none
    → (t : SceneObject) × (targets ≡ t ∷ []) × IsInEnvelope p t
unfolding target_reason
the_target p [] h = cc
the_target p (t ∷ []) h = (t, refl, envelope_of p t h)
the_target p (t ∷ u ∷ targets) h = cc

float-IsNumber : (x : Float) → is_finite x ≡ true → IsNumber x
unfolding is_finite
float-IsNumber (finite n) h = (n, refl)
float-IsNumber infinite h = cc
float-IsNumber minus_infinite h = cc
float-IsNumber nan h = cc

object-IsSolid : (o : SceneObject) → not (object_is_finite o) ≡ false → IsSolid o
unfolding object_is_finite
object-IsSolid o h = record {
  centre = (
    float-IsNumber o.x (ground arith),
    float-IsNumber o.y (ground arith),
    float-IsNumber o.z (ground arith),
  );
  size = (
    float-IsNumber o.size_x (ground arith),
    float-IsNumber o.size_y (ground arith),
    float-IsNumber o.size_z (ground arith),
  );
  confidence = float-IsNumber o.confidence (ground arith);
  at_least = ground arith;
  at_most = ground arith;
}

any_refused :
    {A : Type 0} (test : A → Bool) (xs : List A)
    → any_object test xs ≡ false
    → All (λ x. test x ≡ false) xs
unfolding any_object
any_refused test [] h = tt
any_refused test (x ∷ xs) h = (ground arith, any_refused test xs (ground arith))

differs_from :
    (id : String) (ids : List String) → contains id ids ≡ false → All (λ other. id ≢ other) ids
unfolding contains
differs_from id [] h = tt
differs_from id (other ∷ ids) h = elim (Bool-cases (id == other)) [
  | inl same ↦ absurd (let bad : true ≡ false = rw same at h in cc)
  | inr differ ↦
      (λ e. let same = (string_eq.beq_iff id other).1 e in cc, differs_from id ids (rw differ at h))
]

ids-Distinct : (ids : List String) → has_duplicate ids ≡ false → Distinct ids
unfolding has_duplicate
ids-Distinct [] h = tt
ids-Distinct (id ∷ ids) h = (differs_from id ids (ground arith), ids-Distinct ids (ground arith))

targets-All {ℓ} :
    (P : SceneObject → Type ℓ) (label : String) (objects : List SceneObject)
    → All P objects
    → All P (targets_of label objects)
unfolding targets_of
targets-All P label [] h = tt
targets-All P label (o ∷ objects) h = elim (Bool-cases (strip o.label == label)) [
  | inl same ↦ rw same (h.0, targets-All P label objects h.1)
  | inr other ↦ rw other (targets-All P label objects h.1)
]

clock_of :
    (now : Float) (received : ℤ)
    → (not (is_finite now) || ltb_ℤ (age_of (units now) received) (pos 0)) ≡ false
    → (time : ℤ) × (now ≡ finite time) × (pos 0 ≤ℤ age_of time received)
unfolding is_finite units
clock_of (finite n) received h = (n, refl, ground arith)
clock_of infinite received h = cc
clock_of minus_infinite received h = cc
clock_of nan received h = cc

IsReady-of :
    (session_id target_group : String) (now : Float) (g : Gate) (s : SceneSnapshot)
    → g.latest ≡ some s
    → All (λ c. c ≡ none) (gate_checks g s session_id now)
    → All (λ c. c ≡ none) (policy_checks g.policy s.frame_id s.objects target_group)
    → IsReady session_id target_group now g
unfolding gate_checks policy_checks units
IsReady-of session_id target_group now g s here gate geometry =
    let (n, is_n, early) = clock_of now s.received ((fails_iff _ _).0 gate.1.1.1.1.0) in
    let (t, only, inside) =
      the_target g.policy (targets_of (strip target_group) s.objects) geometry.1.1.1.1.1.1.0 in
    let solid =
      All-map (λ o k. object-IsSolid o k) s.objects
        (any_refused (λ o. not (object_is_finite o)) s.objects
          ((fails_iff _ _).0 geometry.1.1.1.1.1.0)) in
    let solid_target =
      subst (All IsSolid) only (targets-All IsSolid (strip target_group) s.objects solid) in
    let late : ltb_ℤ (pos g.max_age) (age_of n s.received) ≡ false =
      rw is_n at ((fails_iff _ _).0 gate.1.1.1.1.1.0) in
    record {
      scene = s;
      present = here;
      is_ok = (same_iff s.status "ok").0 ((fails_iff _ _).0 gate.0);
      observed = (empty_iff s.observation_id).0 ((fails_iff _ _).0 gate.1.0);
      same_session = (same_iff s.session_id (strip session_id)).0 ((fails_iff _ _).0 gate.1.1.1.0);
      time = n;
      clock = is_n;
      not_early = early;
      not_stale = ground arith;
      frame = (same_iff s.frame_id g.policy.required_frame_id).0 ((fails_iff _ _).0 geometry.1.0);
      named =
          All-map (λ id k. (empty_iff id).0 k) (stripped_ids s.objects)
            (any_refused is_empty (stripped_ids s.objects) ((fails_iff _ _).0 geometry.1.1.1.0));
      distinct = ids-Distinct (stripped_ids s.objects) ((fails_iff _ _).0 geometry.1.1.1.1.0);
      solid = solid;
      target = t;
      only_target = only;
      solid_target = solid_target.0;
      in_envelope = inside;
    }

IsReady-latest :
    (latest : Option SceneSnapshot) (session_id target_group : String) (now : Float) (g : Gate)
    → g.latest ≡ latest
    → evaluate_latest latest session_id target_group now g ≡ none
    → IsReady session_id target_group now g
unfolding evaluate_latest
IsReady-latest none session_id target_group now g here h = cc
IsReady-latest (some s) session_id target_group now g here h =
    let (gate, geometry) =
      All-split (gate_checks g s session_id now)
        (policy_checks g.policy s.frame_id s.objects target_group) ((first_reason_iff _).0 h) in
    IsReady-of session_id target_group now g s here gate geometry

committed-none : (decision : Option String) → (committed decision).1 ≡ true → decision ≡ none
unfolding committed
committed-none none h = refl
committed-none (some reason) h = cc

-- A batch of commands is committed only on a scene that is there and ready: its status is "ok", it has
-- an observation and the session of the request, the clock is a finite time that is not before the
-- scene and not further from it than the greatest age, and the frame is the required one. Each object has
-- an identity of its own and numbers for its coordinates, its sizes and its confidence, and exactly one
-- object has the target's label, with enough confidence, a positive size along each axis and a bounding
-- box within the greatest extent along each axis.
pub commit-IsReady :
    (session_id target_group : String) (now : Float) (g : Gate)
    → (commit_if_accepted session_id target_group now g).1 ≡ true
    → IsReady session_id target_group now g
unfolding commit_if_accepted evaluate_snapshot
commit-IsReady session_id target_group now g h =
    IsReady-latest g.latest session_id target_group now g refl
      (committed-none (evaluate_latest g.latest session_id target_group now g) h)
