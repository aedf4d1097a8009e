-- ===== src/Motion/Tracked.antt =====
-- When the tracker confirms a position, whom the admission lets in, and what task states exclude.
use robot_runtime.Prelude.{
  All, Bool, Bool-cases, List, Option, [], ap, arith, contains, false, if◌then◌else◌, inl, inr,
  is_empty, length, lower, nat_eq, none, not, refl, some, string_eq, strip, suc, sym, take, true,
  zero, ℕ, ◌&&◌, ◌<◌, ◌↔◌, ◌∷◌, ◌≡◌, ◌≢◌, ◌≤◌,
}
use robot_runtime.Motion.Feedback.{Tracker, is_hit, new_tracker, release, try_acquire, update}
use robot_runtime.Motion.Goal.{MotionGoalSpec}
use robot_runtime.Motion.TaskState.{
  TaskState, active_task_lease, is_terminal_task_state, task_start_was_accepted,
  task_start_was_rejected, task_state_has_identity, terminal_task_status, terminal_task_statuses,
}
use robot_runtime.Prelude.Int.{leb_ℤ, ◌<ℤ◌, pos, pos_part, ℤ}

-- The tracker after a history of counts, the latest first.
unfoldable pub tracked : List (ℕ × ℕ) → Tracker → Tracker
tracked [] t = t
tracked (counts ∷ history) t = (update counts (tracked history t)).0

-- All targets are reached, and there are some.
abbrev pub IsHit : ℕ × ℕ → Type 0
IsHit counts = (0 < counts.1) × (counts.0 ≡ counts.1)

IsHit-iff : (counts : ℕ × ℕ) → (is_hit counts ≡ true) ↔ IsHit counts
unfolding is_hit
IsHit-iff counts = ground arith

tracked_required :
    (history : List (ℕ × ℕ)) (t : Tracker)
    → (tracked history t).required_samples ≡ t.required_samples
unfolding tracked update
tracked_required [] t = refl
tracked_required (counts ∷ history) t = tracked_required history t

tracked_samples :
    (history : List (ℕ × ℕ)) (t : Tracker) (n : ℕ)
    → t.consecutive_samples ≡ 0
    → (n ≤ (tracked history t).consecutive_samples)
      ↔ ((n ≤ length history) × All IsHit (take n history))
unfolding tracked update
tracked_samples history t zero fresh = (λ h. (omega arith, tt), λ h. omega arith)
tracked_samples [] t (suc n) fresh =
    (λ h. absurd (omega arith), λ h. absurd (let k = h.0 in omega arith))
tracked_samples (counts ∷ history) t (suc n) fresh =
    let before = tracked_samples history t n fresh in
    elim (Bool-cases (is_hit counts)) [
      | inl hit ↦ rw hit (
        λ h.
            let k = before.0 (omega arith) in
            (let l = k.0 in omega arith, ((IsHit-iff counts).0 hit, k.1)),
        λ h. let l = h.0 in let k = before.1 (omega arith, h.1.1) in omega arith,
      )
      | inr missed ↦
          rw missed (λ h. absurd (omega arith), λ h. let hit = (IsHit-iff counts).1 h.1.0 in cc)
    ]

made_facts :
    (required : ℤ) (t : Tracker)
    → new_tracker required ≡ some t
    → (t.required_samples ≡ pos_part required) × (t.consecutive_samples ≡ 0)
unfolding new_tracker
made_facts required t made = elim (Bool-cases (leb_ℤ required (pos 0))) [
  | inl small ↦ absurd (let refused : none ≡ some t = rw small at made in cc)
  | inr enough ↦
      let same : some (record { required_samples = pos_part required; consecutive_samples = 0 })
          ≡ some t =
        rw enough at made in
      let parts : record { required_samples = pos_part required; consecutive_samples = 0 } ≡ t =
        cc in
      (ap (λ x. x.required_samples) (sym parts), ap (λ x. x.consecutive_samples) (sym parts))
]

confirms :
    (counts : ℕ × ℕ) (t : Tracker)
    → ((update counts t).1 ≡ true) ↔ (t.required_samples ≤ (update counts t).0.consecutive_samples)
unfolding update
confirms counts t = ground arith

latest_samples :
    (counts : ℕ × ℕ) (history : List (ℕ × ℕ)) (t : Tracker) (n : ℕ)
    → t.consecutive_samples ≡ 0
    → (n ≤ (update counts (tracked history t)).0.consecutive_samples)
      ↔ ((n ≤ length (counts ∷ history)) × All IsHit (take n (counts ∷ history)))
unfolding tracked
latest_samples counts history t n fresh = tracked_samples (counts ∷ history) t n fresh

made_above : (required : ℤ) (t : Tracker) → new_tracker required ≡ some t → pos 0 <ℤ required
unfolding new_tracker
made_above required t made = elim (Bool-cases (leb_ℤ required (pos 0))) [
  | inl small ↦ absurd (let refused : none ≡ some t = rw small at made in cc)
  | inr enough ↦ ground arith
]

stable_since :
    (required : ℤ) (t : Tracker) (counts : ℕ × ℕ) (history : List (ℕ × ℕ))
    → new_tracker required ≡ some t
    → ((update counts (tracked history t)).1 ≡ true) ↔ (
        (pos_part required ≤ length (counts ∷ history))
        × All IsHit (take (pos_part required) (counts ∷ history)))
stable_since required t counts history made =
    let (required_same, fresh) = made_facts required t made in
    let confirmed = confirms counts (tracked history t) in
    let same = tracked_required history t in
    let samples = latest_samples counts history t (pos_part required) fresh in
    (
      λ h. let k = confirmed.0 h in samples.0 (omega arith),
      λ h. let k = samples.1 h in confirmed.1 (omega arith),
    )

-- A tracker is made only where at least one sample is required. When it is new, it confirms at a sample
-- exactly when that sample and the ones before it, as many as are required, all found every target
-- reached; so a sample that misses one, or that has no targets, starts the count again.
pub stable_iff :
    (required : ℤ) (t : Tracker) (counts : ℕ × ℕ) (history : List (ℕ × ℕ))
    → new_tracker required ≡ some t
    → (pos 0 <ℤ required)
      × (((update counts (tracked history t)).1 ≡ true) ↔ (
          (pos_part required ≤ length (counts ∷ history))
          × All IsHit (take (pos_part required) (counts ∷ history))))
stable_iff required t counts history made =
    (made_above required t made, stable_since required t counts history made)

accepted_facts :
    (state : TaskState) (spec : MotionGoalSpec)
    → task_start_was_accepted (some state) spec ≡ true
    → (task_state_has_identity (some state) spec ≡ true)
      × (state.active ≡ true)
      × (state.last_action_accepted ≡ true)
      × (is_empty (strip state.lease_id) ≡ false)
unfolding task_start_was_accepted
accepted_facts state spec h = ground arith

terminal_facts :
    (state : TaskState) (spec : MotionGoalSpec)
    → is_terminal_task_state (some state) spec ≡ true
    → (task_state_has_identity (some state) spec ≡ true)
      × (state.active ≡ false)
      × (is_empty (strip state.lease_id) ≡ true)
unfolding is_terminal_task_state terminal_task_status
terminal_facts state spec h =
    elim (Bool-cases (
      task_state_has_identity (some state) spec
      && not state.active
      && is_empty (strip state.lease_id)
      && contains (lower (strip state.status)) terminal_task_statuses)) [
        | inl ended ↦ ground arith
        | inr e ↦ absurd (let refused : not (is_empty "") ≡ true = rw e at h in cc)
      ]

accepted_lease :
    (state : TaskState) (spec : MotionGoalSpec)
    → task_start_was_accepted (some state) spec ≡ true
    → active_task_lease (some state) spec ≢ ""
unfolding active_task_lease
accepted_lease state spec h =
    let (known, running, accepted, leased) = accepted_facts state spec h in
    rw (known, running) (λ e. let is = (string_eq.beq_iff (strip state.lease_id) "").1 e in cc)

-- A task state that says that this goal's start was accepted says neither that it was rejected nor
-- that the task has ended, and it has a lease; and a state of an ended task has no lease.
pub phases_exclude :
    (state : Option TaskState) (spec : MotionGoalSpec)
    → (task_start_was_accepted state spec ≡ true
        → (task_start_was_rejected state spec ≡ false)
          × (is_terminal_task_state state spec ≡ false)
          × (active_task_lease state spec ≢ ""))
      × (is_terminal_task_state state spec ≡ true → active_task_lease state spec ≡ "")
phases_exclude none spec =
    (λ h. absurd (unfold task_start_was_accepted in cc), λ h. unfold active_task_lease in refl)
phases_exclude (some state) spec = (
  λ h.
      let (known, running, accepted, leased) = accepted_facts state spec h in
      (
        unfold task_start_was_rejected in ground arith,
        elim (Bool-cases (is_terminal_task_state (some state) spec)) [
          | inl ended ↦ let k = terminal_facts state spec ended in absurd (ground arith)
          | inr running_on ↦ running_on
        ],
        accepted_lease state spec h,
      ),
  λ h. let k = terminal_facts state spec h in unfold active_task_lease in ground arith,
)

-- The calls on the admission, from a slot that is found free or occupied.
pub data Call : Type 0 where
  acquire : Call
  let_go : Call

-- The goals that are let in, and the calls of `release`.
unfoldable pub let_in : List Call → Bool → ℕ
unfolding try_acquire release
let_in [] slot = 0
let_in (acquire ∷ calls) slot =
    let (next, granted) = try_acquire slot in
    let later_in = let_in calls next in if granted then suc later_in else later_in
let_in (let_go ∷ calls) slot = let_in calls (release slot)

unfoldable pub releases : List Call → ℕ
releases [] = 0
releases (acquire ∷ calls) = releases calls
releases (let_go ∷ calls) = suc (releases calls)

let_in_bound :
    (calls : List Call) (slot : Bool)
    → let_in calls slot ≤ (if slot then releases calls else suc (releases calls))
unfolding let_in releases try_acquire release
let_in_bound [] true = omega arith
let_in_bound [] false = omega arith
let_in_bound (acquire ∷ calls) true = let_in_bound calls true
let_in_bound (acquire ∷ calls) false = let k = let_in_bound calls true in omega arith
let_in_bound (let_go ∷ calls) true = let_in_bound calls false
let_in_bound (let_go ∷ calls) false = let k = let_in_bound calls false in omega arith

-- At most one goal is in at a time: whatever the calls on a new admission, the goals that were let in
-- are at most one more than the releases.
pub one_goal_at_a_time : (calls : List Call) → let_in calls false ≤ suc (releases calls)
one_goal_at_a_time calls = let_in_bound calls false
