-- ===== src/Scene/Replay.antt =====
-- Observations that come to the gate a second time.
use mathlib.Core.Path.{subst}
use robot_runtime.Prelude.{
  Bool-cases, List, Option, String, [], ap, arith, contains, eq_iff, false, inl, inr, is_empty,
  length, max, nat_eq, none, not, refl, some, string_eq, strip, suc, sym, true, zero, ℕ, ◌&&◌, ◌+◌,
  ◌<◌, ◌∙◌, ◌∷◌, ◌≡◌, ◌≢◌,
}
use robot_runtime.Motion.Float.{Float, is_finite}
use robot_runtime.Prelude.Int.{pos_part, ℤ}
use robot_runtime.Prelude.Window.{IsRecent, contains_recent}
use robot_runtime.Scene.Gate.{Gate, Scene, gate_of, new_gate, update_scene}
use robot_runtime.Scene.Policy.{Policy, positive_part, units}
use robot_runtime.Scene.Remembered.{
  Remembers, store_newest, update-Remembers, update_later, update_window,
}

-- The gate after calls of `update`, the first one first.
unfoldable pub updates : List Scene → Gate → Gate
updates [] g = g
updates (scene ∷ scenes) g = updates scenes (update_scene scene g).0

pub updates-Remembers :
    (scenes : List Scene) (g : Gate) → Remembers g → Remembers (updates scenes g)
unfolding updates
updates-Remembers [] g h = h
updates-Remembers (scene ∷ scenes) g h =
    updates-Remembers scenes (update_scene scene g).0 (update-Remembers scene g h)

updates_later :
    (id : String) (count : ℕ) (scenes : List Scene) (g : Gate)
    → count + length scenes < g.replay_window
    → IsRecent id count g.seen_order
    → IsRecent id (count + length scenes) (updates scenes g).seen_order
unfolding updates
updates_later id count [] g small h = record {
  older = h.older;
  newer = h.newer;
  place = h.place;
  few = let k = h.few in omega arith;
}
updates_later id count (scene ∷ scenes) g small h =
    let next =
      updates_later id (suc count) scenes (update_scene scene g).0
        (omega (arith, update_window scene g)) (update_later id count scene g (omega arith) h) in
    record {
      older = next.older;
      newer = next.newer;
      place = next.place;
      few = let k = next.few in omega arith;
    }

made_Remembers :
    (age : Option ℕ) (window : ℤ) (p : Policy) (g : Gate)
    → gate_of age window p ≡ some g
    → Remembers g
unfolding gate_of
made_Remembers none window p g made = cc
made_Remembers (some zero) window p g made = cc
made_Remembers (some (suc n)) window p g made =
    let fresh : Gate = record {
      max_age = suc n;
      replay_window = max 1 (pos_part window);
      policy = p;
      latest = none;
      seen_order = [];
      seen_ids = [];
    } in
    let same : fresh ≡ g = cc in
    subst Remembers same (record {
      memory = record { agrees = λ y. refl; distinct = tt };
      within = omega arith;
      window = omega arith;
    })

pub new-Remembers :
    (age : Float) (window : ℤ) (p : Policy) (g : Gate)
    → new_gate age window p ≡ some g
    → Remembers g
unfolding new_gate
new-Remembers age window p g made = made_Remembers (positive_part age) window p g made

refused :
    (scene : Scene) (g : Gate)
    → strip scene.observation_id ≢ ""
    → contains (strip scene.observation_id) g.seen_ids ≡ true
    → update_scene scene g ≡ (g, false)
unfolding update_scene
refused scene g named seen =
    rw (full, seen)
      (elim (Bool-cases (not (is_finite scene.received_monotonic))) [
        | inl bad ↦ rw bad refl
        | inr good ↦ rw good refl
      ])
  where
    full : is_empty (strip scene.observation_id) ≡ false
    full = ground (arith, eq_iff (strip scene.observation_id) "", named)

accepted_newest :
    (scene : Scene) (g : Gate)
    → strip scene.observation_id ≢ ""
    → Remembers g
    → (update_scene scene g).1 ≡ true
    → IsRecent (strip scene.observation_id) 0 (update_scene scene g).0.seen_order
unfolding update_scene
accepted_newest scene g named h ok = elim (Bool-cases (not (is_finite scene.received_monotonic))) [
  | inl bad ↦ absurd (let no : false ≡ true = rw bad at ok in cc)
  | inr good ↦
      elim (Bool-cases (
        not (is_empty (strip scene.observation_id))
        && contains (strip scene.observation_id) g.seen_ids)) [
          | inl again ↦ absurd (let no : false ≡ true = rw (good, again) at ok in cc)
          | inr fresh ↦
              rw (good, fresh)
                (store_newest (strip scene.observation_id) (units scene.received_monotonic) scene g
                  (ground (arith, eq_iff (strip scene.observation_id) "", named)) h)
        ]
]

-- An observation that a gate has accepted is refused when it comes again, and changes nothing, so it
-- does not make the scene look newer: whatever scenes the gate has had before, and after fewer other
-- scenes than the replay window holds.
pub replay_refused :
    (age : Float) (window : ℤ) (p : Policy) (g : Gate) (history : List Scene) (scene : Scene)
    (others : List Scene) (again : Scene)
    → new_gate age window p ≡ some g
    → strip scene.observation_id ≢ ""
    → (update_scene scene (updates history g)).1 ≡ true
    → length others < (updates history g).replay_window
    → strip again.observation_id ≡ strip scene.observation_id
    → let later = updates others (update_scene scene (updates history g)).0 in
      update_scene again later ≡ (later, false)
replay_refused age window p g history scene others again made named accepted few same =
    let before = updates-Remembers history g (new-Remembers age window p g made) in
    let after = update-Remembers scene (updates history g) before in
    let later = updates others (update_scene scene (updates history g)).0 in
    let kept = updates-Remembers others (update_scene scene (updates history g)).0 after in
    let recent =
      updates_later (strip scene.observation_id) 0 others (update_scene scene (updates history g)).0
        (omega (arith, update_window scene (updates history g)))
        (accepted_newest scene (updates history g) named before accepted) in
    refused again later (λ e. named (sym same ∙ e))
      (ap (λ id. contains id later.seen_ids) same
        ∙ kept.memory.agrees (strip scene.observation_id)
        ∙ contains_recent (strip scene.observation_id) (0 + length others) later.seen_order recent)
