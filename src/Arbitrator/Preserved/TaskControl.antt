-- ===== src/Arbitrator/Preserved/TaskControl.antt =====
-- The invariant through task control.
use robot_runtime.Prelude.{
  String, arith, contains, false, nat_eq, none, not, string_eq, strip, true, ℕ, ◌==◌, ◌≡◌,
}
use robot_runtime.Arbitrator.Invariant.{
  Inv, KeepsInv, accept_task_control-Inv, refresh_mode-Inv, reject_task_control-Inv,
}
use robot_runtime.Arbitrator.Preserved.Rules.{
  Inv-if, Inv-if_state, Inv-unless_refused, answer-Inv, not-false,
}
use robot_runtime.Arbitrator.Refresh.{is_task_control_active, refresh_mode, within}
use robot_runtime.Arbitrator.State.{Arbitrator, Identity, identity_eq}
use robot_runtime.Arbitrator.TaskControl.{
  decide_task_control, end_task, grant_task, hold_task, is_task_control_action, log_task_request,
  missing_identity_reason, receive_task_control, reject_task_control_outside, renew_or_reject,
  start_task, strip_identity, task_lease_reason, task_operation_reason, touch_task,
  validate_task_operation,
}
use robot_runtime.Arbitrator.Tombstones.{all_given}

touch_task-Inv :
    (now : ℕ) (s : Arbitrator)
    → is_task_control_active now s ≡ true
    → Inv s
    → Inv (touch_task now s)
unfolding touch_task is_task_control_active within
touch_task-Inv now s active h = ground arith

renew_or_reject-Inv :
    (action : String) (now : ℕ) (i : Identity) (lease_id : String) (s : Arbitrator)
    → is_task_control_active now s ≡ true
    → Inv s
    → KeepsInv (renew_or_reject action now i lease_id s)
unfolding renew_or_reject
renew_or_reject-Inv action now i lease_id s active h =
    Inv-unless_refused (task_lease_reason i lease_id s) _ _
      (λ reason. reject_task_control-Inv action i.task_id reason h)
      (λ _. accept_task_control-Inv action i.task_id now (touch_task-Inv now s active h))

grant_task-Inv :
    (now : ℕ) (i : Identity) (s : Arbitrator)
    → all_given i ≡ true
    → s.estop_active ≡ false
    → Inv s
    → Inv (touch_task now (grant_task i s))
unfolding touch_task grant_task
grant_task-Inv now i s given running h = ground arith

start_task-Inv :
    (action : String) (now : ℕ) (i : Identity) (lease_id : String) (s : Arbitrator)
    → all_given i ≡ true
    → s.estop_active ≡ false
    → Inv s
    → KeepsInv (start_task action now i lease_id s)
unfolding start_task
start_task-Inv action now i lease_id s given running h =
    Inv-if (is_task_control_active now s) _ _
      (λ active. renew_or_reject-Inv action now i lease_id s active h)
      λ _.
        Inv-if (contains i s.tombstones.identity_set) _ _
          (λ _. reject_task_control-Inv action i.task_id "task_control_replay" h)
          (λ _.
            accept_task_control-Inv action i.task_id now (grant_task-Inv now i s given running h))

end_task-Inv : (s : Arbitrator) → Inv s → Inv (end_task s)
unfolding end_task
end_task-Inv s h = ground arith

hold_task-Inv :
    (action : String) (now : ℕ) (i : Identity) (lease_id : String) (s : Arbitrator)
    → Inv s
    → KeepsInv (hold_task action now i lease_id s)
unfolding hold_task
hold_task-Inv action now i lease_id s h =
    Inv-if (not (is_task_control_active now s)) _ _
      (λ _. reject_task_control-Inv action i.task_id "task_control_not_granted" h)
      λ active.
        Inv-unless_refused (task_lease_reason i lease_id s) _ _
          (λ reason. reject_task_control-Inv action i.task_id reason h)
          λ _. accept_task_control-Inv action i.task_id now (
            Inv-if_state (action == "keepalive") _ _
              (λ _. touch_task-Inv now s (not-false _ active) h) (λ _. end_task-Inv s h))

missing_none : (i : Identity) → missing_identity_reason i ≡ none → all_given i ≡ true
unfolding missing_identity_reason all_given
missing_none i h = ground arith

decide_task_control-Inv :
    (action : String) (now : ℕ) (i : Identity) (lease_id : String) (s : Arbitrator)
    → Inv s
    → KeepsInv (decide_task_control action now i lease_id s)
unfolding decide_task_control
decide_task_control-Inv action now i lease_id s h =
    Inv-if (not (is_task_control_action action)) _ _
      (λ _. reject_task_control-Inv action i.task_id "unsupported_task_control_action" h)
      λ _.
        Inv-unless_refused (missing_identity_reason i) _ _
          (λ reason. reject_task_control-Inv action i.task_id reason h)
          λ given.
            Inv-if s.estop_active _ _ (λ _. reject_task_control-Inv action i.task_id "estop" h)
              λ running.
                Inv-if (action == "start") _ _
                  (λ _. start_task-Inv action now i lease_id s (missing_none i given) running h)
                  (λ _. hold_task-Inv action now i lease_id s h)

log_task_request-Inv :
    (action : String) (i : Identity) (s : Arbitrator) → Inv s → Inv (log_task_request action i s)
unfolding log_task_request
log_task_request-Inv action i s h = ground arith

pub receive_task_control-Inv :
    (action : String) (now : ℕ) (i : Identity) (lease_id : String) {s : Arbitrator}
    → Inv s
    → KeepsInv (receive_task_control action now i lease_id s)
unfolding receive_task_control
receive_task_control-Inv action now i lease_id {s} h =
    decide_task_control-Inv _ now _ _ _ (log_task_request-Inv _ _ _ (refresh_mode-Inv now h))

pub reject_task_control_outside-Inv :
    (action : String) (now : ℕ) (i : Identity) (reason : String) {s : Arbitrator}
    → Inv s
    → KeepsInv (reject_task_control_outside action now i reason s)
unfolding reject_task_control_outside
reject_task_control_outside-Inv action now i reason {s} h =
    reject_task_control-Inv _ _ _ (log_task_request-Inv _ _ _ (refresh_mode-Inv now h))

pub validate_task_operation-Inv :
    (now : ℕ) (i : Identity) (lease_id : String) {s : Arbitrator}
    → Inv s
    → KeepsInv (validate_task_operation now i lease_id s)
unfolding validate_task_operation
validate_task_operation-Inv now i lease_id {s} h =
    Inv-unless_refused
      (task_operation_reason now (strip_identity i) (strip lease_id) (refresh_mode now s)) _ _
      (λ reason. answer-Inv false reason (refresh_mode-Inv now h))
      (λ _. answer-Inv true "accepted" (refresh_mode-Inv now h))
