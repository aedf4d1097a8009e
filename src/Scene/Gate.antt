-- ===== src/Scene/Gate.antt =====
-- `SceneAdmissionGate`. Its lock is held for every method, and for the commit of
-- `commit_if_accepted`, so calls run one after the other.
use robot_runtime.Prelude.{
  Bool, List, Option, String, [], contains, discard, false, if◌then◌else◌, is_empty, length, lower,
  ltb, max, nat_eq, none, not, some, string_eq, strip, suc, true, zero, ℕ, ◌&&◌, ◌++◌, ◌==◌, ◌||◌,
  ◌∷◌,
}
use robot_runtime.Motion.Float.{Float, is_finite}
use robot_runtime.Motion.Goal.{fails, first_reason}
use robot_runtime.Prelude.Int.{ltb_ℤ, negsuc, pos, pos_part, ℤ, ◌-ℤ◌}
use robot_runtime.Scene.Policy.{Policy, SceneObject, policy_checks, positive_part, units}
use robot_runtime.Scene.Rounding.{round_double}

pub record SceneSnapshot : Type 0 where
  pub observation_id : String
  pub session_id : String
  pub frame_id : String
  pub objects : List SceneObject
  pub status : String
  pub reason : String
  pub received : ℤ

pub record Gate : Type 0 where
  pub max_age : ℕ
  pub replay_window : ℕ
  pub policy : Policy
  pub latest : Option SceneSnapshot
  pub seen_order : List String
  pub seen_ids : List String

-- `none` is the `ValueError`.
unfoldable pub gate_of : Option ℕ → ℤ → Policy → Option Gate
gate_of none replay_window p = none
gate_of (some zero) replay_window p = none
gate_of (some (suc age)) replay_window p = some (record {
  max_age = suc age;
  replay_window = max 1 (pos_part replay_window);
  policy = p;
  latest = none;
  seen_order = [];
  seen_ids = [];
})

unfoldable pub new_gate : Float → ℤ → Policy → Option Gate
new_gate max_age_sec replay_window p = gate_of (positive_part max_age_sec) replay_window p

-- What a caller of `update` hands over.
pub record Scene : Type 0 where
  pub observation_id : String
  pub session_id : String
  pub frame_id : String
  pub objects : List SceneObject
  pub status : String
  pub reason : String
  pub received_monotonic : Float

-- The loop `while len(self._seen_order) > self._replay_window`
unfoldable pub trim : ℕ → List String → List String → List String × List String
trim window [] ids = ([], ids)
trim window (x ∷ xs) ids =
    let shorter = trim window xs (discard x ids) in
    if ltb window (length (x ∷ xs)) then shorter else (x ∷ xs, ids)

unfoldable pub snapshot_of : String → ℤ → Scene → SceneSnapshot
snapshot_of id received scene = record {
  observation_id = id;
  session_id = strip scene.session_id;
  frame_id = strip scene.frame_id;
  objects = scene.objects;
  status = lower (strip scene.status);
  reason = strip scene.reason;
  received = received;
}

unfoldable pub store : String → ℤ → Scene → Gate → Gate
unfolding snapshot_of
store id received scene g =
    let next = record g { latest = some (snapshot_of id received scene) } in
    if is_empty id
    then next
    else let seen = trim g.replay_window (g.seen_order ++ (id ∷ [])) (id ∷ g.seen_ids) in
      record next { seen_order = seen.0; seen_ids = seen.1 }

unfoldable pub update_scene : Scene → Gate → Gate × Bool
update_scene scene g =
    let id = strip scene.observation_id in
    if not (is_finite scene.received_monotonic)
    then (g, false)
    else if not (is_empty id) && contains id g.seen_ids
    then (g, false)
    else (store id (units scene.received_monotonic) scene g, true)

-- `now_monotonic - snapshot.received_monotonic` of finite floats
unfoldable pub age_of : ℤ → ℤ → ℤ
age_of now received = elim (now -ℤ received) [ pos n ↦ pos (round_double n) | negsuc n ↦ negsuc n ]

unfoldable pub gate_checks : Gate → SceneSnapshot → String → Float → List (Option String)
gate_checks g s session_id now =
    fails (not (s.status == "ok")) "scene_context_rejected"
    ∷ fails (is_empty s.observation_id) "scene_context_observation_required"
    ∷ fails (is_empty s.session_id) "scene_context_session_required"
    ∷ fails (not (s.session_id == strip session_id)) "scene_context_session_mismatch"
    ∷ fails (not (is_finite now) || ltb_ℤ (age_of (units now) s.received) (pos 0))
        "scene_context_clock_invalid"
    ∷ fails (ltb_ℤ (pos g.max_age) (age_of (units now) s.received)) "scene_context_stale"
    ∷ []

unfoldable pub evaluate_latest :
    Option SceneSnapshot → String → String → Float → Gate → Option String
evaluate_latest none session_id target_group now g = some "scene_context_unavailable"
evaluate_latest (some s) session_id target_group now g =
    first_reason
      (gate_checks g s session_id now ++ policy_checks g.policy s.frame_id s.objects target_group)

unfoldable pub evaluate_snapshot : String → String → Float → Gate → Option String
evaluate_snapshot session_id target_group now g =
    evaluate_latest g.latest session_id target_group now g

-- The decision, and whether `commit` was called.
unfoldable pub committed : Option String → Option String × Bool
committed none = (none, true)
committed (some reason) = (some reason, false)

unfoldable pub commit_if_accepted : String → String → Float → Gate → Option String × Bool
unfolding committed
commit_if_accepted session_id target_group now g =
    committed (evaluate_snapshot session_id target_group now g)
