-- ===== src/Arbitrator/Estop.antt =====
-- `set_estop`, `tick`, `snapshot`, `_task_status` and `_task_recoverable`.
use robot_runtime.Prelude.{
  Bool, List, String, [], contains, false, if◌then◌else◌, is_empty, nat_eq, none, not, string_eq,
  strip, true, ℕ, ◌&&◌, ◌==◌, ◌∷◌,
}
use robot_runtime.Arbitrator.Refresh.{
  clear_expired_task_control, clear_task_control, clear_teleop_control, is_motion_active,
  is_task_control_active, is_teleop_control_active, log_task_end, refresh_mode, remaining,
}
use robot_runtime.Arbitrator.State.{Arbitrator, identity_eq}
use robot_runtime.Arbitrator.Tombstones.{remember_task_identity}

-- `str(reason).strip() or 'estop'`
unfoldable pub stop_reason : String → String
stop_reason reason = let text = strip reason in if is_empty text then "estop" else text

-- A task that is stopped while active is remembered and logged as stopped.
unfoldable pub stop_task : ℕ → Arbitrator → Arbitrator
unfolding remember_task_identity log_task_end
stop_task now s =
    if is_task_control_active now s
    then log_task_end "estop" "estop" s.task.identity (remember_task_identity s)
    else s

unfoldable pub stop_all : ℕ → String → Arbitrator → Arbitrator
unfolding stop_reason stop_task clear_task_control clear_teleop_control
stop_all now reason s =
    let stopped =
      stop_task now (record s { estop_active = true; estop_reason = stop_reason reason }) in
    record (clear_teleop_control (clear_task_control stopped)) { last_motion_time = none }

-- The state that `set_estop` leaves; it returns the snapshot of that state.
unfoldable pub set_estop : Bool → ℕ → String → Arbitrator → Arbitrator
set_estop active now reason s0 =
    let s = clear_expired_task_control now s0 in
    refresh_mode now (if active then stop_all now reason s else record s { estop_active = false })

-- The state that `tick` and `snapshot` leave.
unfoldable pub tick : ℕ → Arbitrator → Arbitrator
tick now s = refresh_mode now s

unfoldable pub task_status : ℕ → Arbitrator → String
task_status now s =
    if s.estop_active
    then "blocked"
    else if is_task_control_active now s
    then "active"
    else if s.task_log.accepted && s.task_log.action == "finish"
    then "finished"
    else if s.task_log.accepted && s.task_log.action == "cancel"
    then "cancelled"
    else if s.task_log.action == "timeout"
    then "expired"
    else if s.task_log.action == "estop"
    then "blocked"
    else if not (is_empty s.task_log.reason) && not s.task_log.accepted
    then "rejected"
    else "idle"

abbrev recoverable_reasons : List String
recoverable_reasons =
    "estop" ∷ "task_active" ∷ "task_control_not_granted" ∷ "task_control_held_by_other_task"
    ∷ "task_control_trace_mismatch" ∷ "task_control_session_mismatch" ∷ "task_id_required"
    ∷ "task_trace_id_required" ∷ "task_session_id_required" ∷ "task_lease_required"
    ∷ "task_lease_mismatch" ∷ "task_lease_expired" ∷ "task_control_replay" ∷ "task_stop_pending"
    ∷ []

unfoldable pub task_recoverable : Arbitrator → Bool
task_recoverable s =
    if s.estop_active
    then s.estop_reason == "estop"
    else if s.task_log.accepted
    then false
    else contains s.task_log.reason recoverable_reasons

-- The entries of the dictionary that `snapshot` computes; its other entries are fields of the state.
pub record Snapshot : Type 0 where
  pub state : Arbitrator
  pub teleop_active : Bool
  pub motion_active : Bool
  pub task_active : Bool
  pub teleop_control_remaining : ℕ
  pub task_control_remaining : ℕ
  pub task_status : String
  pub task_state_reason : String
  pub task_recoverable : Bool

unfoldable pub snapshot : ℕ → Arbitrator → Snapshot
unfolding task_status task_recoverable remaining
snapshot now s0 =
    let s = refresh_mode now s0 in
    record {
      state = s;
      teleop_active = is_teleop_control_active now s;
      motion_active = is_motion_active now s;
      task_active = is_task_control_active now s;
      teleop_control_remaining = remaining s.config.teleop_timeout s.teleop.last_time now;
      task_control_remaining = remaining s.config.task_timeout s.task.last_time now;
      task_status = task_status now s;
      task_state_reason = if s.estop_active then s.estop_reason else s.task_log.reason;
      task_recoverable = task_recoverable s;
    }
