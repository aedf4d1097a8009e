-- ===== src/Arbitrator/Memory.antt =====
-- What a call does to the task that holds the lease and to the memory of ended tasks.
use robot_runtime.Prelude.{
  Option, String, arith, contains, false, if◌then◌else◌, lower, nat_eq, refl, string_eq, strip,
  true, ℕ, ◌==◌, ◌≡◌, ◌⊎◌, inl, inr, Bool-cases, ◌∙◌, sym, List,
}
use robot_runtime.Arbitrator.Command.{receive, reject_outside}
use robot_runtime.Arbitrator.Estop.{set_estop, tick}
use robot_runtime.Arbitrator.Events.{
  Event, command, estop_set, outside_reject, outside_task_reject, step, task_check, task_control,
  teleop_control, ticked,
}
use robot_runtime.Arbitrator.Invariant.{Inv}
use robot_runtime.Arbitrator.Refresh.{
  clear_task_control, log_task_end, clear_expired_task_control, expired, refresh_mode,
}
use robot_runtime.Arbitrator.Replies.{answer, unless_refused}
use robot_runtime.Arbitrator.State.{Tombstones, Arbitrator, Identity, identity_eq}
use robot_runtime.Arbitrator.TaskControl.{
  log_task_request, receive_task_control, reject_task_control_outside, strip_identity,
  validate_task_operation,
}
use robot_runtime.Arbitrator.TeleopControl.{log_teleop_request, receive_teleop_control}
use robot_runtime.Arbitrator.Tombstones.{remember_task_identity, all_given, remember, add_identity}
use robot_runtime.Arbitrator.Settled.{
  quiet, ends, starts, is_held, held, has_ended, Settles, Dropped, IsLive, refreshed, IsLive-after,
  Settled, Settled-unless_refused,
}
use robot_runtime.Arbitrator.Settling.{
  rejected, task_rejected, answered, task_decided, command_decided, teleop_decided, stopped_all,
  lifted,
}

-- What a call does, from the state before it to the state after it.
pub record Moves (s t : Arbitrator) : Type 0 where
  pub config : t.config ≡ s.config
  pub memory : t.tombstones ≡ (
      if has_ended s t
      then remember s.config.tombstone_limit s.task.identity s.tombstones
      else s.tombstones)
  pub fresh :
      held t ≡ true
      → ((held s ≡ true) × (t.task.identity ≡ s.task.identity) × (has_ended s t ≡ false))
        ⊎ (contains t.task.identity t.tombstones.identity_set ≡ false)

Dropped-set : (now : ℕ) (s : Arbitrator) → Dropped now s (clear_expired_task_control now s)
unfolding clear_expired_task_control clear_task_control log_task_end remember_task_identity
Dropped-set now s = record { config = ground arith; task = ground arith; memory = ground arith }

same_identity : (i : Identity) → (i == i) ≡ true
same_identity i = (identity_eq.beq_iff i i).1 refl

remembered :
    (limit : ℕ) (i : Identity) (t : Tombstones)
    → all_given i ≡ true
    → contains i (remember limit i t).identity_set ≡ true
unfolding remember add_identity contains
remembered limit i t given = elim (Bool-cases (contains i t.identity_set)) [
  | inl known ↦ rw (given, known) known
  | inr fresh ↦ rw (given, fresh) (rw (same_identity i) refl)
]

stays_out :
    (i j : Identity) (set : List Identity)
    → contains i set ≡ true
    → contains j set ≡ false
    → (j == i) ≡ false
stays_out i j set h k = elim (Bool-cases (j == i)) [
  | inl same ↦ absurd (
      let is : j ≡ i = (identity_eq.beq_iff j i).0 same in
      let bad : true ≡ false = sym h ∙ (rw is at k) in cc)
  | inr other ↦ other
]

pub given_of : (s : Arbitrator) → Inv s → held s ≡ true → all_given s.task.identity ≡ true
given_of s inv h = ground (arith, inv.task_named)

expired_held :
    (timeout now : ℕ) (last : Option ℕ) → expired timeout last now ≡ true → is_held last ≡ true
unfolding expired
expired_held timeout now last h = ground arith

module _ (now : ℕ) (s r t : Arbitrator) (d : Dropped now s r) (inv : Inv s) where
  after_end :
      t.config ≡ s.config
      → t.tombstones ≡ remember s.config.tombstone_limit s.task.identity s.tombstones
      → has_ended s t ≡ true
      → (held t ≡ true → contains t.task.identity t.tombstones.identity_set ≡ false)
      → Moves s t
  after_end c m e f = record { config = c; memory = rw e m; fresh = λ h. inr (f h) }

  out_of_time : expired s.config.task_timeout s.task.last_time now ≡ true → Settles r t → Moves s t
  out_of_time late (quiet c h i m) =
      let gone : held t ≡ false = h ∙ rw (d.task, late) refl in
      let was = expired_held s.config.task_timeout now s.task.last_time late in
      after_end (c ∙ d.config) (m ∙ (d.memory ∙ rw late refl)) (rw (was, gone) refl)
        (λ k. absurd (ground arith))
  out_of_time late (ends c h e m) = absurd (let bad : false ≡ true = rw (d.task, late) at h in cc)
  out_of_time late (starts c h f m) =
      let was = expired_held s.config.task_timeout now s.task.last_time late in
      let made : r.tombstones ≡ remember s.config.tombstone_limit s.task.identity s.tombstones =
        d.memory ∙ rw late refl in
      let there =
        remembered s.config.tombstone_limit s.task.identity s.tombstones (given_of s inv was) in
      let other = stays_out s.task.identity t.task.identity _ there (rw made at f) in
      after_end (c ∙ d.config) (m ∙ made) (rw (was, other) (ground arith)) (λ k. rw m f)

  in_time : expired s.config.task_timeout s.task.last_time now ≡ false → Settles r t → Moves s t
  in_time live (quiet c h i m) =
      let task : r.task ≡ s.task = d.task ∙ rw live refl in
      let made : r.tombstones ≡ s.tombstones = d.memory ∙ rw live refl in
      let held_same : held t ≡ held s = h ∙ rw task refl in
      let same : t.task.identity ≡ s.task.identity = i ∙ rw task refl in
      let goes_on : has_ended s t ≡ false =
        rw (same, held_same, same_identity s.task.identity) (ground arith) in
      record {
        config = c ∙ d.config;
        memory = rw goes_on (m ∙ made);
        fresh = λ k. inl (sym held_same ∙ k, same, goes_on);
      }
  in_time live (ends c h e m) =
      let task : r.task ≡ s.task = d.task ∙ rw live refl in
      let made : r.tombstones ≡ s.tombstones = d.memory ∙ rw live refl in
      let was : held s ≡ true = rw task at h in
      after_end (c ∙ d.config) (m ∙ rw (d.config, task, made) refl) (rw (was, e) refl)
        (λ k. absurd (ground arith))
  in_time live (starts c h f m) =
      let task : r.task ≡ s.task = d.task ∙ rw live refl in
      let made : r.tombstones ≡ s.tombstones = d.memory ∙ rw live refl in
      let was : held s ≡ false = rw task at h in
      let goes_on : has_ended s t ≡ false = rw was refl in
      record { config = c ∙ d.config; memory = rw goes_on (m ∙ made); fresh = λ k. inr (rw m f) }

  moved : Settles r t → Moves s t
  moved h = elim (Bool-cases (expired s.config.task_timeout s.task.last_time now)) [
    | inl late ↦ out_of_time late h
    | inr live ↦ in_time live h
  ]

-- Every call.
module _ (s : Arbitrator) (inv : Inv s) where
  refreshes :
      (now : ℕ) (t : Arbitrator)
      → (IsLive now (refresh_mode now s) → Settles (refresh_mode now s) t)
      → Moves s t
  refreshes now t h =
      let d = refreshed now s in
      moved now s (refresh_mode now s) t d inv (h (IsLive-after now s (refresh_mode now s) d))

  through :
      (now : ℕ) (r t : Arbitrator) → Dropped now s r → (IsLive now r → Settles r t) → Moves s t
  through now r t d h = moved now s r t d inv (h (IsLive-after now s r d))

  task_logged :
      (now : ℕ) (action : String) (i : Identity)
      → Dropped now s (log_task_request action i (refresh_mode now s))
  unfolding log_task_request
  task_logged now action i =
      let d = refreshed now s in record { config = d.config; task = d.task; memory = d.memory }

  teleop_logged :
      (now : ℕ) (action : String) → Dropped now s (refresh_mode now (log_teleop_request action s))
  unfolding log_teleop_request
  teleop_logged now action =
      let d = refreshed now (log_teleop_request action s) in
      record { config = d.config; task = d.task; memory = d.memory }

  checked :
      (now : ℕ) (r : Arbitrator) (reason : Option String)
      → IsLive now r
      → Settled r (unless_refused reason (λ why. answer false why r) (answer true "accepted" r))
  checked now r reason live =
      Settled-unless_refused r reason _ _ (λ why. answered now r live false why)
        (λ _. answered now r live true "accepted")

  pub step-Moves : (e : Event) → Moves s (step e s)
  unfolding step receive reject_outside receive_task_control reject_task_control_outside
      validate_task_operation receive_teleop_control log_task_request log_teleop_request tick
      set_estop
  step-Moves (command source now q l) =
      refreshes now _
        (λ live. (command_decided now (refresh_mode now s) live source (strip q) (strip l)).state)
  step-Moves (outside_reject source now q why) =
      refreshes now _
        (λ live. (rejected now (refresh_mode now s) live source (strip why) (strip q)).state)
  step-Moves (task_control action now i l) =
      let a = lower (strip action) in
      let j = strip_identity i in
      let r = log_task_request a j (refresh_mode now s) in
      through now r _ (task_logged now a j) (λ live. (task_decided now r live a j (strip l)).state)
  step-Moves (outside_task_reject action now i why) =
      let a = lower (strip action) in
      let j = strip_identity i in
      let r = log_task_request a j (refresh_mode now s) in
      through now r _ (task_logged now a j)
        (λ live. (task_rejected now r live a j.task_id (strip why)).state)
  step-Moves (task_check now i l) =
      refreshes now _ (λ live. (checked now (refresh_mode now s) _ live).state)
  step-Moves (teleop_control action now q l) =
      let a = lower (strip action) in
      let r = refresh_mode now (log_teleop_request a s) in
      through now r _ (teleop_logged now a)
        (λ live. (teleop_decided now r live a (strip q) (strip l)).state)
  step-Moves (estop_set true now why) =
      let r = clear_expired_task_control now s in
      through now r _ (Dropped-set now s) (λ live. stopped_all now r live why)
  step-Moves (estop_set false now why) =
      let r = clear_expired_task_control now s in
      through now r _ (Dropped-set now s) (λ live. lifted now r live)
  step-Moves (ticked now) = refreshes now _ (λ live. quiet refl refl refl refl)
