-- ===== src/Arbitrator/Preserved/TeleopControl.antt =====
-- The invariant through teleop control, the emergency stop and the tick.
use robot_runtime.Prelude.{
  Bool, String, arith, false, lower, nat_eq, none, not, string_eq, strip, true, ℕ, ◌&&◌, ◌==◌, ◌≡◌,
  ◌≢◌,
}
use robot_runtime.Arbitrator.Estop.{set_estop, stop_all, tick}
use robot_runtime.Arbitrator.Invariant.{
  Inv, KeepsInv, accept_teleop_control-Inv, clear_expired_task_control-Inv, refresh_mode-Inv,
  reject_teleop_control-Inv,
}
use robot_runtime.Arbitrator.Preserved.Rules.{Inv-if, Inv-unless_refused}
use robot_runtime.Arbitrator.Refresh.{
  clear_teleop_control, is_holder, is_task_control_active, is_teleop_control_active, within,
}
use robot_runtime.Arbitrator.Refreshed.{Fresh, refresh_mode-Fresh}
use robot_runtime.Arbitrator.State.{Arbitrator, identity_eq}
use robot_runtime.Arbitrator.TeleopControl.{
  claim, claim_lease_id, decide_teleop_control, grant_teleop, is_teleop_control_action, keep_teleop,
  log_teleop_request, receive_teleop_control, release_teleop, set_teleop, teleop_hold_reason,
}

grant_teleop-Inv :
    (action : String) (now : ℕ) (requester_id : String) (s : Arbitrator)
    → s.estop_active ≡ false
    → s.task.last_time ≡ none
    → Inv s
    → KeepsInv (grant_teleop action now requester_id s)
unfolding grant_teleop set_teleop claim_lease_id
grant_teleop-Inv action now requester_id s running free h =
    accept_teleop_control-Inv action now requester_id _ _ (ground arith)

claim-Inv :
    (action : String) (now : ℕ) (requester_id : String) (s : Arbitrator)
    → Fresh now s
    → Inv s
    → KeepsInv (claim action now requester_id s)
unfolding claim
claim-Inv action now requester_id s f h =
    Inv-if s.estop_active _ _ (λ _. reject_teleop_control-Inv action "estop" h)
      λ running.
        Inv-if (is_task_control_active now s) _ _
          (λ _. reject_teleop_control-Inv action "task_active" h)
          λ idle.
            Inv-if (is_teleop_control_active now s && not (is_holder requester_id s)) _ _
              (λ _. reject_teleop_control-Inv action "teleop_control_held_by_other" h)
              (λ _. grant_teleop-Inv action now requester_id s running (ground arith) h)

-- A lease that is active has a time.
hold_active :
    (now : ℕ) (requester_id lease_id : String) (s : Arbitrator)
    → teleop_hold_reason now requester_id lease_id s ≡ none
    → s.teleop.last_time ≢ none
unfolding teleop_hold_reason is_teleop_control_active within
hold_active now requester_id lease_id s h = ground arith

keep_teleop-Inv :
    (action : String) (now : ℕ) (requester_id lease_id : String) (s : Arbitrator)
    → Inv s
    → KeepsInv (keep_teleop action now requester_id lease_id s)
unfolding keep_teleop
keep_teleop-Inv action now requester_id lease_id s h =
    Inv-unless_refused (teleop_hold_reason now requester_id lease_id s) _ _
      (λ reason. reject_teleop_control-Inv action reason h)
      λ held.
        accept_teleop_control-Inv action now requester_id s.teleop.lease_id _
          (ground (arith, hold_active now requester_id lease_id s held))

release_teleop-Inv :
    (action : String) (now : ℕ) (requester_id lease_id : String) (s : Arbitrator)
    → Inv s
    → KeepsInv (release_teleop action now requester_id lease_id s)
unfolding release_teleop clear_teleop_control
release_teleop-Inv action now requester_id lease_id s h =
    Inv-unless_refused (teleop_hold_reason now requester_id lease_id s) _ _
      (λ reason. reject_teleop_control-Inv action reason h)
      λ _. accept_teleop_control-Inv action now "" "" _ (ground arith)

decide_teleop_control-Inv :
    (action : String) (now : ℕ) (requester_id lease_id : String) (s : Arbitrator)
    → Fresh now s
    → Inv s
    → KeepsInv (decide_teleop_control action now requester_id lease_id s)
unfolding decide_teleop_control
decide_teleop_control-Inv action now requester_id lease_id s f h =
    Inv-if (not (is_teleop_control_action action)) _ _
      (λ _. reject_teleop_control-Inv action "unsupported_teleop_control_action" h)
      λ _.
        Inv-if (action == "claim") _ _ (λ _. claim-Inv action now requester_id s f h)
          λ _.
            Inv-if (action == "keepalive") _ _
              (λ _. keep_teleop-Inv action now requester_id lease_id s h)
              (λ _. release_teleop-Inv action now requester_id lease_id s h)

pub log_teleop_request-Inv :
    (action : String) (s : Arbitrator) → Inv s → Inv (log_teleop_request action s)
unfolding log_teleop_request
log_teleop_request-Inv action s h = ground arith

pub receive_teleop_control-Inv :
    (action : String) (now : ℕ) (requester_id lease_id : String) {s : Arbitrator}
    → Inv s
    → KeepsInv (receive_teleop_control action now requester_id lease_id s)
unfolding receive_teleop_control
receive_teleop_control-Inv action now requester_id lease_id {s} h =
    decide_teleop_control-Inv (lower (strip action)) now (strip requester_id) (strip lease_id) _
      (refresh_mode-Fresh now _)
      (refresh_mode-Inv now (log_teleop_request-Inv (lower (strip action)) s h))

stop_all-Inv : (now : ℕ) (reason : String) (s : Arbitrator) → Inv s → Inv (stop_all now reason s)
unfolding stop_all
stop_all-Inv now reason s h = ground arith

resume-Inv : (s : Arbitrator) → Inv s → Inv (record s { estop_active = false })
resume-Inv s h = ground arith

pub set_estop-Inv :
    (active : Bool) (now : ℕ) (reason : String) {s : Arbitrator}
    → Inv s
    → Inv (set_estop active now reason s)
unfolding set_estop
set_estop-Inv true now reason h =
    refresh_mode-Inv now (stop_all-Inv now reason _ (clear_expired_task_control-Inv now h))
set_estop-Inv false now reason h =
    refresh_mode-Inv now (resume-Inv _ (clear_expired_task_control-Inv now h))

pub tick-Inv : (now : ℕ) {s : Arbitrator} → Inv s → Inv (tick now s)
unfolding tick
tick-Inv now h = refresh_mode-Inv now h
