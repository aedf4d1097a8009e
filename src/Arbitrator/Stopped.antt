-- ===== src/Arbitrator/Stopped.antt =====
-- The emergency stop through later calls.
use robot_runtime.Prelude.{
  All, List, String, [], arith, false, lower, refl, strip, true, ℕ, ◌∙◌, ◌∷◌, ◌≡◌,
}
use robot_runtime.Arbitrator.Command.{decide_command, receive, reject_outside}
use robot_runtime.Arbitrator.Estop.{set_estop, stop_all, tick}
use robot_runtime.Arbitrator.Events.{
  Event, command, estop_set, outside_reject, outside_task_reject, run, run-Inv, step, step-Inv,
  task_check, task_control, teleop_control, ticked,
}
use robot_runtime.Arbitrator.Invariant.{Inv, new-Inv, refresh_mode-Inv}
use robot_runtime.Arbitrator.Preserved.TeleopControl.{log_teleop_request-Inv, set_estop-Inv}
use robot_runtime.Arbitrator.Refresh.{
  clear_expired_task_control, is_teleop_control_active, refresh_mode, within,
}
use robot_runtime.Arbitrator.Refreshed.{estop_active-refresh_mode}
use robot_runtime.Arbitrator.Replies.{
  Reply, answer, reject, reject_task_control, reject_teleop_control,
}
use robot_runtime.Arbitrator.State.{Arbitrator, Config, Identity, Source, new}
use robot_runtime.Arbitrator.TaskControl.{
  decide_task_control, log_task_request, receive_task_control, reject_task_control_outside,
  strip_identity, task_operation_reason, validate_task_operation,
}
use robot_runtime.Arbitrator.TeleopControl.{
  claim, decide_teleop_control, keep_teleop, log_teleop_request, receive_teleop_control,
  release_teleop, teleop_hold_reason,
}

-- The one call that lifts the stop.
abbrev pub IsLifting : Event → Type 0
IsLifting (estop_set active _ _) = active ≡ false
IsLifting _ = ⊥

abbrev pub NoneLifts : List Event → Type 0
NoneLifts es = All (λ e. ¬ IsLifting e) es

abbrev pub IsAccepted : Event → Arbitrator → Type 0
IsAccepted (command source now r l) s = (receive source now r l s).0.accepted ≡ true
IsAccepted (task_control action now i l) s =
    (receive_task_control action now i l s).0.accepted ≡ true
IsAccepted (task_check now i l) s = (validate_task_operation now i l s).0.accepted ≡ true
IsAccepted (teleop_control action now r l) s =
    (receive_teleop_control action now r l s).0.accepted ≡ true
IsAccepted _ s = ⊥

-- The answer is a refusal, and the stop is still there.
abbrev IsRefusal : Reply → Type 0
IsRefusal r = (r.0.accepted ≡ false) × (r.1.estop_active ≡ true)

module _ (s : Arbitrator) (stopped : s.estop_active ≡ true) where
  still_stopped : (now : ℕ) → (refresh_mode now s).estop_active ≡ true
  still_stopped now = estop_active-refresh_mode now s ∙ stopped

  decide_command_refused :
      (source : Source) (now : ℕ) (r l : String) → IsRefusal (decide_command source now r l s)
  unfolding decide_command reject
  decide_command_refused source now r l = ground arith

  decide_task_control_refused :
      (action : String) (now : ℕ) (i : Identity) (l : String)
      → IsRefusal (decide_task_control action now i l s)
  unfolding decide_task_control reject_task_control
  decide_task_control_refused action now i l = ground arith

  check_refused :
      (now : ℕ) (i : Identity) (l : String) → IsRefusal (validate_task_operation now i l s)
  unfolding validate_task_operation task_operation_reason answer
  check_refused now i l = ground (arith, still_stopped now)

  decide_teleop_control_refused :
      (action : String) (now : ℕ) (r l : String)
      → Inv s
      → IsRefusal (decide_teleop_control action now r l s)
  unfolding decide_teleop_control claim keep_teleop release_teleop teleop_hold_reason
      reject_teleop_control is_teleop_control_active within
  decide_teleop_control_refused action now r l v = ground arith

stop_all_stopped :
    (now : ℕ) (reason : String) (s : Arbitrator) → (stop_all now reason s).estop_active ≡ true
unfolding stop_all
stop_all_stopped now reason s = ground arith

pub set_estop_stopped :
    (now : ℕ) (reason : String) (s : Arbitrator) → (set_estop true now reason s).estop_active ≡ true
unfolding set_estop
set_estop_stopped now reason s =
    estop_active-refresh_mode now _ ∙ stop_all_stopped now reason (clear_expired_task_control now s)

module _ {s : Arbitrator} (v : Inv s) (stopped : s.estop_active ≡ true) where
  command_refused :
      (source : Source) (now : ℕ) (r l : String) → IsRefusal (receive source now r l s)
  unfolding receive
  command_refused source now r l =
      decide_command_refused (refresh_mode now s) (still_stopped s stopped now) source now (strip r)
        (strip l)

  task_control_refused :
      (action : String) (now : ℕ) (i : Identity) (l : String)
      → IsRefusal (receive_task_control action now i l s)
  unfolding receive_task_control log_task_request
  task_control_refused action now i l =
      decide_task_control_refused _ (still_stopped s stopped now) (lower (strip action)) now
        (strip_identity i) (strip l)

  teleop_control_refused :
      (action : String) (now : ℕ) (r l : String)
      → IsRefusal (receive_teleop_control action now r l s)
  unfolding receive_teleop_control log_teleop_request
  teleop_control_refused action now r l =
      decide_teleop_control_refused _ (still_stopped _ stopped now) (lower (strip action)) now
        (strip r) (strip l)
        (refresh_mode-Inv now (log_teleop_request-Inv (lower (strip action)) s v))

  outside_stopped :
      (source : Source) (now : ℕ) (r reason : String)
      → (reject_outside source now r reason s).1.estop_active ≡ true
  unfolding reject_outside reject
  outside_stopped source now r reason = ground (arith, still_stopped s stopped now)

  outside_task_stopped :
      (action : String) (now : ℕ) (i : Identity) (reason : String)
      → (reject_task_control_outside action now i reason s).1.estop_active ≡ true
  unfolding reject_task_control_outside reject_task_control log_task_request
  outside_task_stopped action now i reason = still_stopped s stopped now

  step_stopped : (e : Event) → ¬ IsLifting e → (step e s).estop_active ≡ true
  unfolding step tick
  step_stopped (command source now r l) n = (command_refused source now r l).1
  step_stopped (outside_reject source now r reason) n = outside_stopped source now r reason
  step_stopped (task_control action now i l) n = (task_control_refused action now i l).1
  step_stopped (outside_task_reject action now i reason) n =
      outside_task_stopped action now i reason
  step_stopped (task_check now i l) n = (check_refused s stopped now i l).1
  step_stopped (teleop_control action now r l) n = (teleop_control_refused action now r l).1
  step_stopped (estop_set true now reason) n = set_estop_stopped now reason s
  step_stopped (estop_set false now reason) n = absurd (n refl)
  step_stopped (ticked now) n = still_stopped s stopped now

  not-IsAccepted : (e : Event) → ¬ IsAccepted e s
  not-IsAccepted (command source now r l) a = cc ((command_refused source now r l).0)
  not-IsAccepted (outside_reject source now r reason) a = a
  not-IsAccepted (task_control action now i l) a = cc ((task_control_refused action now i l).0)
  not-IsAccepted (outside_task_reject action now i reason) a = a
  not-IsAccepted (task_check now i l) a = cc ((check_refused s stopped now i l).0)
  not-IsAccepted (teleop_control action now r l) a = cc ((teleop_control_refused action now r l).0)
  not-IsAccepted (estop_set active now reason) a = a
  not-IsAccepted (ticked now) a = a

run_stopped :
    (es : List Event) {s : Arbitrator}
    → Inv s
    → s.estop_active ≡ true
    → NoneLifts es
    → (run es s).estop_active ≡ true
unfolding run
run_stopped [] v h n = h
run_stopped (e ∷ es) v h n = run_stopped es (step-Inv e v) (step_stopped v h e n.0) n.1

-- Once `set_estop(True)` was called, and until a call of `set_estop(False)`, no command, no task
-- control, no task check and no teleop control is accepted, whatever calls lie between.
pub stop_blocks :
    (config : Config) (before : List Event) (now : ℕ) (reason : String) (between : List Event)
    (e : Event)
    → NoneLifts between
    → ¬ IsAccepted e (run between (set_estop true now reason (run before (new config))))
stop_blocks config before now reason between e n =
    let v = run-Inv before (new-Inv config) in
    let w = set_estop-Inv true now reason v in
    not-IsAccepted (run-Inv between w) (run_stopped between w (set_estop_stopped now reason _) n) e
