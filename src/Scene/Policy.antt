-- ===== src/Scene/Policy.antt =====
-- `SceneGeometryPolicy`: a decision is the reason of a refusal, `none` where the scene is accepted.
use robot_runtime.Prelude.{
  Bool, List, Option, String, [], contains, false, if◌then◌else◌, is_empty, leb, ltb, nat_beq,
  nat_eq, none, not, some, string_eq, strip, true, ℕ, ◌&&◌, ◌+◌, ◌==◌, ◌||◌, ◌∷◌,
}
use robot_runtime.Motion.Float.{Float, finite, is_finite, whole}
use robot_runtime.Motion.Goal.{fails, first_reason}
use robot_runtime.Prelude.Int.{leb_ℤ, ltb_ℤ, neg_part, pos, pos_part, ℤ}
use robot_runtime.Scene.Rounding.{half, round_double}

pub record SceneObject : Type 0 where
  pub object_id : String
  pub label : String
  pub confidence : Float
  pub x : Float
  pub y : Float
  pub z : Float
  pub size_x : Float
  pub size_y : Float
  pub size_z : Float

-- The bounds that the constructor has checked, as multiples of 2^-1074.
pub record Policy : Type 0 where
  pub required_frame_id : String
  pub minimum_confidence : ℕ
  pub maximum_extent : ℕ

unfoldable pub positive_part : Float → Option ℕ
positive_part (finite (pos n)) = some n
positive_part _ = none

-- `none` is the `ValueError`.
unfoldable pub new_policy : String → Float → Float → Option Policy
unfolding positive_part
new_policy frame confidence extent = elim (positive_part confidence) [
  | none ↦ none
  | some c ↦ elim (positive_part extent) [
    | none ↦ none
    | some e ↦
        if is_empty (strip frame) || not (leb c (whole 1)) || nat_beq e 0
        then none
        else some
            (record { required_frame_id = strip frame; minimum_confidence = c; maximum_extent = e })
  ]
]

-- The multiple that a finite float is.
unfoldable pub units : Float → ℤ
units (finite n) = n
units _ = pos 0

unfoldable pub object_is_finite : SceneObject → Bool
unfolding units
object_is_finite o =
    is_finite o.confidence
    && is_finite o.x
    && is_finite o.y
    && is_finite o.z
    && is_finite o.size_x
    && is_finite o.size_y
    && is_finite o.size_z
    && leb_ℤ (pos 0) (units o.confidence)
    && leb_ℤ (units o.confidence) (pos (whole 1))
    && leb_ℤ (pos 0) (units o.size_x)
    && leb_ℤ (pos 0) (units o.size_y)
    && leb_ℤ (pos 0) (units o.size_z)

unfoldable pub any_object {ℓ} : {A : Type ℓ} → (A → Bool) → List A → Bool
any_object test [] = false
any_object test (o ∷ objects) = test o || any_object test objects

-- `len(object_ids) != len(set(object_ids))`
unfoldable pub has_duplicate : List String → Bool
unfolding contains
has_duplicate [] = false
has_duplicate (id ∷ ids) = contains id ids || has_duplicate ids

unfoldable pub stripped_ids : List SceneObject → List String
stripped_ids [] = []
stripped_ids (o ∷ objects) = strip o.object_id ∷ stripped_ids objects

unfoldable pub targets_of : String → List SceneObject → List SceneObject
targets_of target [] = []
targets_of target (o ∷ objects) =
    let rest = targets_of target objects in if strip o.label == target then o ∷ rest else rest

-- `abs(center) + size / 2.0 > self._maximum_extent_m`
unfoldable pub exceeds : ℕ → Float → Float → Bool
unfolding units half
exceeds extent center size = ltb extent (
    round_double (pos_part (units center) + neg_part (units center) + half (pos_part (units size))))

unfoldable pub target_checks : Policy → SceneObject → List (Option String)
target_checks p t =
    fails (ltb_ℤ (units t.confidence) (pos p.minimum_confidence))
      "scene_context_target_confidence_low"
    ∷ fails
        (leb_ℤ (units t.size_x) (pos 0)
          || leb_ℤ (units t.size_y) (pos 0)
          || leb_ℤ (units t.size_z) (pos 0))
        "scene_context_target_size_invalid"
    ∷ fails
        (exceeds p.maximum_extent t.x t.size_x
          || exceeds p.maximum_extent t.y t.size_y
          || exceeds p.maximum_extent t.z t.size_z)
        "scene_context_target_out_of_bounds"
    ∷ []

unfoldable pub target_reason : Policy → List SceneObject → Option String
target_reason p [] = some "scene_context_target_missing"
target_reason p (t ∷ []) = first_reason (target_checks p t)
target_reason p (t ∷ u ∷ targets) = some "scene_context_target_not_unique"

abbrev no_objects : List SceneObject → Bool
no_objects [] = true
no_objects (o ∷ objects) = false

-- The checks of `evaluate`, with the frame and the objects of the snapshot.
unfoldable pub policy_checks : Policy → String → List SceneObject → String → List (Option String)
policy_checks p frame objects target_group =
    fails (is_empty frame) "scene_context_frame_required"
    ∷ fails (not (frame == p.required_frame_id)) "scene_context_frame_mismatch"
    ∷ fails (no_objects objects) "scene_context_objects_required"
    ∷ fails (any_object is_empty (stripped_ids objects)) "scene_context_object_identity_required"
    ∷ fails (has_duplicate (stripped_ids objects)) "scene_context_object_identity_not_unique"
    ∷ fails (any_object (λ o. not (object_is_finite o)) objects)
        "scene_context_object_geometry_invalid"
    ∷ target_reason p (targets_of (strip target_group) objects)
    ∷ []
