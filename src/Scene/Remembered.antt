-- ===== src/Scene/Remembered.antt =====
-- What one update of the gate does to what it remembers of the observations it has seen.
use robot_runtime.Prelude.{
  Bool-cases, List, String, [], arith, contains, discard, false, inl, inr, is_empty, length, ltb,
  nat_eq, not, refl, string_eq, strip, suc, true, ℕ, ◌&&◌, ◌++◌, ◌<◌, ◌∷◌, ◌≡◌, ◌≤◌, ◌⊎◌,
}
use robot_runtime.Motion.Float.{is_finite}
use robot_runtime.Prelude.Int.{ℤ}
use robot_runtime.Prelude.Window.{
  IsMemory, IsRecent, pop-IsMemory, pop-IsRecent, push-IsMemory, push-IsRecent,
}
use robot_runtime.Scene.Gate.{Gate, Scene, store, trim, update_scene}
use robot_runtime.Scene.Policy.{units}

trim-IsMemory :
    (window : ℕ) (xs ids : List String)
    → IsMemory xs ids
    → IsMemory (trim window xs ids).0 (trim window xs ids).1
unfolding trim
trim-IsMemory window [] ids h = h
trim-IsMemory window (x ∷ xs) ids h = elim (Bool-cases (ltb window (length (x ∷ xs)))) [
  | inl long ↦ rw long (trim-IsMemory window xs (discard x ids) (pop-IsMemory x xs ids h))
  | inr fits ↦ rw fits h
]

trim-length : (window : ℕ) (xs ids : List String) → length (trim window xs ids).0 ≤ window
unfolding trim
trim-length window [] ids = omega arith
trim-length window (x ∷ xs) ids = elim (Bool-cases (ltb window (length (x ∷ xs)))) [
  | inl long ↦ rw long (trim-length window xs (discard x ids))
  | inr fits ↦ rw fits (ground arith)
]

trim-IsRecent :
    (window : ℕ) (xs ids : List String) (id : String) (count : ℕ)
    → count < window
    → IsRecent id count xs
    → IsRecent id count (trim window xs ids).0
unfolding trim
trim-IsRecent window [] ids id count small h = h
trim-IsRecent window (x ∷ xs) ids id count small h =
    elim (Bool-cases (ltb window (length (x ∷ xs)))) [
      | inl long ↦ rw long (
          trim-IsRecent window xs (discard x ids) id count small
            (pop-IsRecent id x count xs h (ground arith)))
      | inr fits ↦ rw fits h
    ]

-- The set agrees with the queue, which is within its window.
pub record Remembers (g : Gate) : Type 0 where
  pub memory : IsMemory g.seen_order g.seen_ids
  pub within : length g.seen_order ≤ g.replay_window
  pub window : 1 ≤ g.replay_window

store-Remembers :
    (id : String) (received : ℤ) (scene : Scene) (g : Gate)
    → is_empty id ≡ true ⊎ contains id g.seen_ids ≡ false
    → Remembers g
    → Remembers (store id received scene g)
unfolding store
store-Remembers id received scene g known h = elim (Bool-cases (is_empty id)) [
  | inl empty ↦ rw empty (record { memory = h.memory; within = h.within; window = h.window })
  | inr full ↦
      let fresh : contains id g.seen_ids ≡ false = ground arith in
      rw full (record {
        memory =
            trim-IsMemory g.replay_window (g.seen_order ++ (id ∷ [])) (id ∷ g.seen_ids)
              (push-IsMemory id g.seen_order g.seen_ids h.memory fresh);
        within = trim-length g.replay_window (g.seen_order ++ (id ∷ [])) (id ∷ g.seen_ids);
        window = h.window;
      })
]

pub update-Remembers : (scene : Scene) (g : Gate) → Remembers g → Remembers (update_scene scene g).0
unfolding update_scene
update-Remembers scene g h = elim (Bool-cases (not (is_finite scene.received_monotonic))) [
  | inl bad ↦ rw bad h
  | inr good ↦
      rw good
        (elim (Bool-cases (
          not (is_empty (strip scene.observation_id))
          && contains (strip scene.observation_id) g.seen_ids)) [
            | inl again ↦ rw again h
            | inr fresh ↦ rw fresh (
                store-Remembers (strip scene.observation_id) (units scene.received_monotonic) scene
                  g (ground arith) h)
          ])
]

weaken :
    (id : String) (count : ℕ) (queue : List String)
    → IsRecent id count queue
    → IsRecent id (suc count) queue
weaken id count queue h = record {
  older = h.older;
  newer = h.newer;
  place = h.place;
  few = let k = h.few in omega arith;
}

pub store_newest :
    (id : String) (received : ℤ) (scene : Scene) (g : Gate)
    → is_empty id ≡ false
    → Remembers g
    → IsRecent id 0 (store id received scene g).seen_order
unfolding store
store_newest id received scene g full h = rw full (
    trim-IsRecent g.replay_window (g.seen_order ++ (id ∷ [])) (id ∷ g.seen_ids) id 0
      (let k = h.window in omega arith)
      (record { older = g.seen_order; newer = []; place = refl; few = omega arith }))

store_later :
    (other id : String) (count : ℕ) (received : ℤ) (scene : Scene) (g : Gate)
    → suc count < g.replay_window
    → IsRecent id count g.seen_order
    → IsRecent id (suc count) (store other received scene g).seen_order
unfolding store
store_later other id count received scene g small h = elim (Bool-cases (is_empty other)) [
  | inl empty ↦ rw empty (weaken id count g.seen_order h)
  | inr full ↦ rw full (
      trim-IsRecent g.replay_window (g.seen_order ++ (other ∷ [])) (other ∷ g.seen_ids) id
        (suc count) small (push-IsRecent id other count g.seen_order h))
]

pub update_later :
    (id : String) (count : ℕ) (scene : Scene) (g : Gate)
    → suc count < g.replay_window
    → IsRecent id count g.seen_order
    → IsRecent id (suc count) (update_scene scene g).0.seen_order
unfolding update_scene
update_later id count scene g small h =
    elim (Bool-cases (not (is_finite scene.received_monotonic))) [
      | inl bad ↦ rw bad (weaken id count g.seen_order h)
      | inr good ↦
          rw good
            (elim (Bool-cases (
              not (is_empty (strip scene.observation_id))
              && contains (strip scene.observation_id) g.seen_ids)) [
                | inl again ↦ rw again (weaken id count g.seen_order h)
                | inr fresh ↦ rw fresh (
                    store_later (strip scene.observation_id) id count
                      (units scene.received_monotonic) scene g small h)
              ])
    ]

pub update_window :
    (scene : Scene) (g : Gate) → (update_scene scene g).0.replay_window ≡ g.replay_window
unfolding update_scene store
update_window scene g = ground arith
