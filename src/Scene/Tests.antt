-- ===== src/Scene/Tests.antt =====
-- The scene gate's theorems at a concrete scene.
use robot_runtime.Prelude.{
  String, [], arith, contains, false, lower, nat_eq, none, refl, string_eq, strip, ℕ, ◌∷◌, ◌≡◌,
}
use robot_runtime.Driver.Convert.{round_div}
use robot_runtime.Motion.Float.{finite, is_finite, whole}
use robot_runtime.Motion.Goal.{fails, first_reason}
use robot_runtime.Prelude.Int.{negsuc, pos, ◌-ℤ◌}
use robot_runtime.Scene.Gate.{
  Gate, Scene, age_of, commit_if_accepted, committed, evaluate_latest, evaluate_snapshot,
  gate_checks, gate_of, new_gate, snapshot_of, store, trim, update_scene,
}
use robot_runtime.Scene.Policy.{
  Policy, SceneObject, any_object, exceeds, has_duplicate, object_is_finite, policy_checks,
  positive_part, stripped_ids, target_checks, target_reason, targets_of, units,
}
use robot_runtime.Scene.Ready.{IsReady, commit-IsReady}
use robot_runtime.Scene.Replay.{replay_refused, updates}
use robot_runtime.Scene.Rounding.{bits, half, round_double}

abbrev envelope : Policy
envelope = record {
  required_frame_id = "camera_link";
  minimum_confidence = 0;
  maximum_extent = whole 2;
}

abbrev ankle : SceneObject
ankle = record {
  object_id = "o1";
  label = "left_ankle";
  confidence = finite (pos (whole 1));
  x = finite (pos (whole 1));
  y = finite (pos 0);
  z = finite (negsuc 0);
  size_x = finite (pos (whole 1));
  size_y = finite (pos (whole 1));
  size_z = finite (pos 1);
}

abbrev seen_at : ℕ → String → Scene
seen_at time id = record {
  observation_id = id;
  session_id = "s1";
  frame_id = "camera_link";
  objects = ankle ∷ [];
  status = "OK";
  reason = "";
  received_monotonic = finite (pos time);
}

abbrev empty_gate : Gate
empty_gate = record {
  max_age = 10;
  replay_window = 2;
  policy = envelope;
  latest = none;
  seen_order = [];
  seen_ids = [];
}

replay_refused_example :
    let later = updates (seen_at 2 "b" ∷ []) (update_scene (seen_at 1 "a") empty_gate).0 in
    update_scene (seen_at 3 " a ") later ≡ (later, false)
unfolding new_gate updates update_scene strip gate_of positive_part is_finite contains
replay_refused_example =
    replay_refused (finite (pos 10)) (pos 2) envelope empty_gate [] (seen_at 1 "a")
      (seen_at 2 "b" ∷ []) (seen_at 3 " a ") refl (λ e. cc) refl (omega arith) refl

abbrev ready_gate : Gate
ready_gate = (update_scene (seen_at 1 "a") empty_gate).0

commit-IsReady_example : IsReady "s1" "left_ankle" (finite (pos 5)) ready_gate
unfolding commit_if_accepted evaluate_snapshot evaluate_latest update_scene is_finite strip contains
    store first_reason gate_checks fails lower age_of ◌-ℤ◌ units round_double policy_checks
    any_object stripped_ids round_div whole exceeds has_duplicate object_is_finite target_checks
    target_reason targets_of bits half committed snapshot_of trim
commit-IsReady_example = commit-IsReady "s1" "left_ankle" (finite (pos 5)) ready_gate refl
