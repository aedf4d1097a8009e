-- ===== src/Arbitrator/Settling.antt =====
-- Every branch of the arbitrator's operations, by what it does to the task and the memory.
use robot_runtime.Prelude.{
  Bool, String, arith, contains, false, nat_eq, not, refl, string_eq, true, ℕ, ◌&&◌, ◌==◌, ◌≡◌, inl,
  inr, Bool-cases, ◌∙◌, sym,
}
use robot_runtime.Arbitrator.Command.{accept_command, note_motion, decide_command}
use robot_runtime.Arbitrator.Estop.{stop_all, stop_task}
use robot_runtime.Arbitrator.Refresh.{
  clear_task_control, clear_teleop_control, is_holder, is_teleop_control_active, log_task_end,
  expired, is_task_control_active, refresh_mode, within,
}
use robot_runtime.Arbitrator.Replies.{
  accept_task_control, accept_teleop_control, answer, log_task_command, reject, reject_task_control,
  reject_teleop_control,
}
use robot_runtime.Arbitrator.State.{motion, task, teleop, Arbitrator, Identity, Source, identity_eq}
use robot_runtime.Arbitrator.TaskControl.{
  decide_task_control, end_task, grant_task, hold_task, is_task_control_action,
  missing_identity_reason, renew_or_reject, start_task, task_lease_reason, touch_task,
}
use robot_runtime.Arbitrator.TeleopControl.{
  claim, claim_lease_id, decide_teleop_control, grant_teleop, keep_teleop, release_teleop,
  set_teleop, teleop_hold_reason, is_teleop_control_action,
}
use robot_runtime.Arbitrator.Tombstones.{remember_task_identity}
use robot_runtime.Arbitrator.Settled.{
  quiet, ends, starts, held, Quiet, Settles, IsLive, refresh-Quiet, Quiet-Settles, Settled,
  Settled-if, Settled-unless_refused,
}

module _ (now : ℕ) (r : Arbitrator) (live : IsLive now r) where
  pub rejected :
      (source : Source) (reason requester_id : String)
      → Settled r (reject source reason requester_id r)
  unfolding reject
  rejected source reason requester_id = record {
    state = quiet (ground arith) (ground arith) (ground arith) (ground arith);
  }

  pub task_rejected :
      (action task_id reason : String) → Settled r (reject_task_control action task_id reason r)
  unfolding reject_task_control
  task_rejected action task_id reason = record { state = quiet refl refl refl refl }

  pub teleop_rejected : (action reason : String) → Settled r (reject_teleop_control action reason r)
  unfolding reject_teleop_control
  teleop_rejected action reason = record { state = quiet refl refl refl refl }

  pub answered : (accepted : Bool) (reason : String) → Settled r (answer accepted reason r)
  unfolding answer
  answered accepted reason = record { state = quiet refl refl refl refl }

  pub accepted :
      (action task_id : String) (t : Arbitrator)
      → IsLive now t
      → Settles r t
      → Settled r (accept_task_control action task_id now t)
  unfolding accept_task_control
  accepted action task_id t live_t h = record {
    state = Quiet-Settles r t _ h (
        let q = refresh-Quiet now _ live_t in
        record { config = q.config; task = q.task; memory = q.memory });
  }

  pub touched : (t : Arbitrator) → IsLive now (touch_task now t)
  unfolding touch_task expired
  touched t = ground arith

  pub renewed :
      (action : String) (i : Identity) (lease_id : String)
      → is_task_control_active now r ≡ true
      → Settled r (renew_or_reject action now i lease_id r)
  unfolding renew_or_reject
  renewed action i lease_id active =
      Settled-unless_refused r (task_lease_reason i lease_id r) _ _
        (λ reason. task_rejected action i.task_id reason)
        (λ _. accepted action i.task_id (touch_task now r) (touched r) (kept active))
    where
      kept : is_task_control_active now r ≡ true → Settles r (touch_task now r)
      kept a =
          unfold is_task_control_active in
          unfold within in unfold touch_task in quiet refl (ground arith) refl refl

  pub not_held : is_task_control_active now r ≡ false → held r ≡ false
  unfolding is_task_control_active within expired
  not_held idle = ground (arith, live)

  pub was_held : is_task_control_active now r ≡ true → held r ≡ true
  unfolding is_task_control_active within
  was_held active = ground arith

  pub started :
      (action : String) (i : Identity) (lease_id : String)
      → Settled r (start_task action now i lease_id r)
  unfolding start_task
  started action i lease_id =
      Settled-if r (is_task_control_active now r) _ _ (λ active. renewed action i lease_id active)
        λ idle.
          Settled-if r (contains i r.tombstones.identity_set) _ _
            (λ _. task_rejected action i.task_id "task_control_replay")
            (λ fresh.
              accepted action i.task_id (touch_task now (grant_task i r)) (touched (grant_task i r))
                (granted idle fresh))
    where
      granted :
          is_task_control_active now r ≡ false
          → contains i r.tombstones.identity_set ≡ false
          → Settles r (touch_task now (grant_task i r))
      granted idle fresh =
          unfold grant_task in unfold touch_task in starts refl (not_held idle) fresh refl

  pub ended : is_task_control_active now r ≡ true → Settles r (end_task r)
  unfolding end_task
  ended active = ends refl (was_held active) refl refl

  pub ended-IsLive : IsLive now (end_task r)
  unfolding end_task expired
  ended-IsLive = refl

  pub touched_quiet : is_task_control_active now r ≡ true → Settles r (touch_task now r)
  unfolding touch_task
  touched_quiet active = quiet refl (let h = was_held active in ground arith) refl refl

  pub task_held :
      (action : String) (i : Identity) (lease_id : String)
      → Settled r (hold_task action now i lease_id r)
  unfolding hold_task
  task_held action i lease_id = elim (Bool-cases (is_task_control_active now r)) [
    | inr idle ↦ rw idle (task_rejected action i.task_id "task_control_not_granted")
    | inl active ↦ rw active (
        Settled-unless_refused r (task_lease_reason i lease_id r) _ _
          (λ reason. task_rejected action i.task_id reason)
          λ _. elim (Bool-cases (action == "keepalive")) [
            | inl keeps ↦
                rw keeps
                  (accepted action i.task_id (touch_task now r) (touched r) (touched_quiet active))
            | inr ending ↦
                rw ending (accepted action i.task_id (end_task r) ended-IsLive (ended active))
          ])
  ]

  pub task_decided :
      (action : String) (i : Identity) (lease_id : String)
      → Settled r (decide_task_control action now i lease_id r)
  unfolding decide_task_control
  task_decided action i lease_id =
      Settled-if r (not (is_task_control_action action)) _ _
        (λ _. task_rejected action i.task_id "unsupported_task_control_action")
        λ _.
          Settled-unless_refused r (missing_identity_reason i) _ _
            (λ reason. task_rejected action i.task_id reason)
            λ _.
              Settled-if r r.estop_active _ _ (λ _. task_rejected action i.task_id "estop")
                λ _.
                  Settled-if r (action == "start") _ _ (λ _. started action i lease_id)
                    (λ _. task_held action i lease_id)

  pub refreshed-Quiet : (t : Arbitrator) → Quiet r t → Settles r (refresh_mode now t)
  refreshed-Quiet t q =
      let live_t : IsLive now t = rw (q.config, q.task) live in
      let again = refresh-Quiet now t live_t in
      quiet (again.config ∙ q.config) (rw (again.task, q.task) refl) (rw (again.task, q.task) refl)
        (again.memory ∙ q.memory)

  pub command_noted :
      (source : Source) (requester_id : String)
      → Settled r (accept_command source now requester_id r)
  unfolding accept_command note_motion log_task_command
  command_noted teleop requester_id = record {
    state = refreshed-Quiet _ (record { config = refl; task = refl; memory = refl });
  }
  command_noted motion requester_id = record {
    state = refreshed-Quiet _ (record { config = refl; task = refl; memory = refl });
  }
  command_noted task requester_id = record {
    state = refreshed-Quiet _ (record { config = refl; task = refl; memory = refl });
  }

  pub command_decided :
      (source : Source) (requester_id lease_id : String)
      → Settled r (decide_command source now requester_id lease_id r)
  unfolding decide_command
  command_decided source requester_id lease_id =
      Settled-if r r.estop_active _ _ (λ _. rejected source "estop" requester_id)
        λ _.
          Settled-unless_refused r _ _ _ (λ text. rejected source text requester_id)
            (λ _. command_noted source requester_id)

  pub teleop_accepted :
      (action holder_id lease_id : String) (t : Arbitrator)
      → Quiet r t
      → Settled r (accept_teleop_control action now holder_id lease_id t)
  unfolding accept_teleop_control
  teleop_accepted action holder_id lease_id t q = record {
    state = refreshed-Quiet _ (record { config = q.config; task = q.task; memory = q.memory });
  }

  pub teleop_kept :
      (action requester_id lease_id : String)
      → Settled r (keep_teleop action now requester_id lease_id r)
  unfolding keep_teleop
  teleop_kept action requester_id lease_id =
      Settled-unless_refused r (teleop_hold_reason now requester_id lease_id r) _ _
        (λ reason. teleop_rejected action reason)
        (λ _.
          teleop_accepted action requester_id r.teleop.lease_id _
            (record { config = refl; task = refl; memory = refl }))

  pub teleop_released :
      (action requester_id lease_id : String)
      → Settled r (release_teleop action now requester_id lease_id r)
  unfolding release_teleop clear_teleop_control
  teleop_released action requester_id lease_id =
      Settled-unless_refused r (teleop_hold_reason now requester_id lease_id r) _ _
        (λ reason. teleop_rejected action reason)
        (λ _. teleop_accepted action "" "" _ (record { config = refl; task = refl; memory = refl }))

  pub teleop_granted :
      (action requester_id : String) → Settled r (grant_teleop action now requester_id r)
  unfolding grant_teleop set_teleop claim_lease_id
  teleop_granted action requester_id =
      teleop_accepted action requester_id _ _
        (record { config = ground arith; task = ground arith; memory = ground arith })

  pub teleop_claimed : (action requester_id : String) → Settled r (claim action now requester_id r)
  unfolding claim
  teleop_claimed action requester_id =
      Settled-if r r.estop_active _ _ (λ _. teleop_rejected action "estop")
        λ _.
          Settled-if r (is_task_control_active now r) _ _
            (λ _. teleop_rejected action "task_active")
            λ _.
              Settled-if r (is_teleop_control_active now r && not (is_holder requester_id r)) _ _
                (λ _. teleop_rejected action "teleop_control_held_by_other")
                (λ _. teleop_granted action requester_id)

  pub teleop_decided :
      (action requester_id lease_id : String)
      → Settled r (decide_teleop_control action now requester_id lease_id r)
  unfolding decide_teleop_control
  teleop_decided action requester_id lease_id =
      Settled-if r (not (is_teleop_control_action action)) _ _
        (λ _. teleop_rejected action "unsupported_teleop_control_action")
        λ _.
          Settled-if r (action == "claim") _ _ (λ _. teleop_claimed action requester_id)
            λ _.
              Settled-if r (action == "keepalive") _ _
                (λ _. teleop_kept action requester_id lease_id)
                (λ _. teleop_released action requester_id lease_id)

  pub cleared : (reason : String) → Settles r (stop_all now reason r)
  unfolding stop_all stop_task log_task_end remember_task_identity clear_task_control
      clear_teleop_control is_task_control_active
  cleared reason = elim (Bool-cases (within r.config.task_timeout r.task.last_time now)) [
    | inl active ↦ ends (ground arith) (was_held active) (ground arith) (rw active refl)
    | inr idle ↦ quiet (ground arith) (sym (not_held idle)) (ground arith) (rw idle refl)
  ]

  pub stopped-IsLive : (reason : String) → IsLive now (stop_all now reason r)
  unfolding stop_all clear_task_control clear_teleop_control expired
  stopped-IsLive reason = refl

  pub stopped_all : (reason : String) → Settles r (refresh_mode now (stop_all now reason r))
  stopped_all reason =
      Quiet-Settles r (stop_all now reason r) _ (cleared reason)
        (refresh-Quiet now (stop_all now reason r) (stopped-IsLive reason))

  pub lifted : Settles r (refresh_mode now (record r { estop_active = false }))
  lifted = refreshed-Quiet _ (record { config = refl; task = refl; memory = refl })
