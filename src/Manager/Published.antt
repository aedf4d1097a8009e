-- ===== src/Manager/Published.antt =====
-- `_publish_state`: the two messages that a snapshot of the arbitrator fills. The snapshot refreshes the
-- arbitrator, so this is a step too, of the timer and at the end of each handler, under a lock of its
-- own. Times are ticks; the stamp is left out.
use robot_runtime.Prelude.{Bool, Option, String, none, some, ℕ}
use robot_runtime.Arbitrator.Estop.{Snapshot, snapshot}
use robot_runtime.Arbitrator.State.{Identity, Mode, Source, motion, task, teleop}
use robot_runtime.Manager.State.{Manager}

unfoldable pub mode_text : Mode → String
mode_text Mode.estop = "estop"
mode_text Mode.task_active = "task_active"
mode_text Mode.teleop_active = "teleop_active"
mode_text Mode.motion_active = "motion_active"
mode_text Mode.idle = "idle"

-- `str(snapshot['active_source'] or '')`
unfoldable pub source_text : Option Source → String
source_text none = ""
source_text (some teleop) = "teleop"
source_text (some motion) = "motion"
source_text (some task) = "task"

pub record ExecutionState : Type 0 where
  pub mode : String
  pub active_source : String
  pub teleop_holder_id : String
  pub teleop_lease_id : String
  pub estop_active : Bool
  pub teleop_active : Bool
  pub motion_active : Bool
  pub teleop_timeout : ℕ
  pub motion_timeout : ℕ
  pub teleop_control_remaining : ℕ
  pub last_teleop_control_action : String
  pub last_teleop_control_accepted : Bool
  pub last_teleop_control_reason : String
  pub teleop_control_accepted_count : ℕ
  pub teleop_control_rejected_count : ℕ
  pub teleop_accepted_count : ℕ
  pub motion_accepted_count : ℕ
  pub teleop_rejected_count : ℕ
  pub motion_rejected_count : ℕ
  pub last_rejection_reason : String

pub record TaskExecutionState : Type 0 where
  pub active : Bool
  pub identity : Identity
  pub lease_id : String
  pub lease_timeout : ℕ
  pub lease_remaining : ℕ
  pub last_action : String
  pub last_identity : Identity
  pub last_action_accepted : Bool
  pub status : String
  pub reason : String
  pub recoverable : Bool
  pub control_accepted_count : ℕ
  pub control_rejected_count : ℕ
  pub last_command_requester_id : String
  pub last_command_accepted : Bool
  pub last_command_reason : String
  pub command_accepted_count : ℕ
  pub command_rejected_count : ℕ

unfoldable pub execution_state : Snapshot → ExecutionState
execution_state shot = record {
  mode = mode_text shot.state.mode;
  active_source = source_text shot.state.active_source;
  teleop_holder_id = shot.state.teleop.holder_id;
  teleop_lease_id = shot.state.teleop.lease_id;
  estop_active = shot.state.estop_active;
  teleop_active = shot.teleop_active;
  motion_active = shot.motion_active;
  teleop_timeout = shot.state.config.teleop_timeout;
  motion_timeout = shot.state.config.motion_timeout;
  teleop_control_remaining = shot.teleop_control_remaining;
  last_teleop_control_action = shot.state.teleop_log.action;
  last_teleop_control_accepted = shot.state.teleop_log.accepted;
  last_teleop_control_reason = shot.state.teleop_log.reason;
  teleop_control_accepted_count = shot.state.teleop_log.accepted_count;
  teleop_control_rejected_count = shot.state.teleop_log.rejected_count;
  teleop_accepted_count = shot.state.accepted_counts.teleop;
  motion_accepted_count = shot.state.accepted_counts.motion;
  teleop_rejected_count = shot.state.rejected_counts.teleop;
  motion_rejected_count = shot.state.rejected_counts.motion;
  last_rejection_reason = shot.state.last_rejection_reason;
}

unfoldable pub task_execution_state : Snapshot → TaskExecutionState
task_execution_state shot = record {
  active = shot.task_active;
  identity = shot.state.task.identity;
  lease_id = shot.state.task.lease_id;
  lease_timeout = shot.state.config.task_timeout;
  lease_remaining = shot.task_control_remaining;
  last_action = shot.state.task_log.action;
  last_identity = shot.state.task_log.identity;
  last_action_accepted = shot.state.task_log.accepted;
  status = shot.task_status;
  reason = shot.task_state_reason;
  recoverable = shot.task_recoverable;
  control_accepted_count = shot.state.task_log.accepted_count;
  control_rejected_count = shot.state.task_log.rejected_count;
  last_command_requester_id = shot.state.command_log.requester_id;
  last_command_accepted = shot.state.command_log.accepted;
  last_command_reason = shot.state.command_log.reason;
  command_accepted_count = shot.state.accepted_counts.task;
  command_rejected_count = shot.state.rejected_counts.task;
}

unfoldable pub publish_state : ℕ → Manager → Manager × ExecutionState × TaskExecutionState
unfolding execution_state task_execution_state
publish_state now m =
    let shot = snapshot now m.arbitrator in
    (record m { arbitrator = shot.state }, execution_state shot, task_execution_state shot)
