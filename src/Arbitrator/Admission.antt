-- ===== src/Arbitrator/Admission.antt =====
-- When a command is accepted, and what an answer says about the state.
use robot_runtime.Prelude.{
  String, arith, eq_iff, false, if◌then◌else◌, none, some, strip, strip-strip, true, ℕ, ◌↔◌, ◌≡◌,
  ◌≢◌,
}
use robot_runtime.Arbitrator.Command.{
  accept_command, decide_command, motion_command_rejection_reason, receive, rejection_reason,
  task_command_rejection_reason, teleop_command_rejection_reason,
}
use robot_runtime.Arbitrator.Invariant.{Inv}
use robot_runtime.Arbitrator.Refresh.{
  expired, is_holder, is_lease_holder, is_task_control_active, is_task_lease_holder,
  is_teleop_control_active, refresh_mode, within,
}
use robot_runtime.Arbitrator.Refreshed.{
  config-refresh_mode, estop_active-refresh_mode, task-refresh_mode, teleop-refresh_mode,
}
use robot_runtime.Arbitrator.Replies.{answer, reject}
use robot_runtime.Arbitrator.State.{Arbitrator, Identity, Source, motion, task, teleop}
use robot_runtime.Arbitrator.TaskControl.{
  missing_identity_reason, strip_identity, task_identity_mismatch_reason, task_lease_reason,
  task_operation_reason, validate_task_operation,
}
use robot_runtime.Arbitrator.Tombstones.{all_given}

-- What a task command must bring.
pub record HoldsTask (now : ℕ) (requester_id lease_id : String) (s : Arbitrator) : Type 0 where
  pub running : s.estop_active ≡ false
  pub active : is_task_control_active now s ≡ true
  pub named : strip requester_id ≢ ""
  pub holder : strip requester_id ≡ s.task.identity.task_id
  pub leased : strip lease_id ≢ ""
  pub lease : strip lease_id ≡ s.task.lease_id

-- What a teleop command must bring, while no task is active.
pub record HoldsTeleop (now : ℕ) (requester_id lease_id : String) (s : Arbitrator) : Type 0 where
  pub running : s.estop_active ≡ false
  pub no_task : is_task_control_active now s ≡ false
  pub active : is_teleop_control_active now s ≡ true
  pub named : strip requester_id ≢ ""
  pub holder : strip requester_id ≡ s.teleop.holder_id
  pub lease : strip lease_id ≡ s.teleop.lease_id

pub record MotionFree (now : ℕ) (s : Arbitrator) : Type 0 where
  pub running : s.estop_active ≡ false
  pub no_task : is_task_control_active now s ≡ false
  pub no_teleop : is_teleop_control_active now s ≡ false

-- A refresh does not change whether control is active.
pub task_active-refresh_mode :
    (now : ℕ) (s : Arbitrator)
    → is_task_control_active now (refresh_mode now s) ≡ is_task_control_active now s
unfolding is_task_control_active within expired
task_active-refresh_mode now s = ground (arith, config-refresh_mode now s, task-refresh_mode now s)

pub teleop_active-refresh_mode :
    (now : ℕ) (s : Arbitrator)
    → is_teleop_control_active now (refresh_mode now s) ≡ is_teleop_control_active now s
unfolding is_teleop_control_active within expired
teleop_active-refresh_mode now s =
    ground (arith, config-refresh_mode now s, teleop-refresh_mode now s)

-- An active lease is not touched by a refresh.
pub task-refresh_mode_active :
    (now : ℕ) (s : Arbitrator)
    → is_task_control_active now s ≡ true
    → (refresh_mode now s).task ≡ s.task
unfolding is_task_control_active within expired
task-refresh_mode_active now s h = ground (arith, task-refresh_mode now s)

pub teleop-refresh_mode_active :
    (now : ℕ) (s : Arbitrator)
    → is_teleop_control_active now s ≡ true
    → (refresh_mode now s).teleop ≡ s.teleop
unfolding is_teleop_control_active within expired
teleop-refresh_mode_active now s h = ground (arith, teleop-refresh_mode now s)

accepted-decide :
    (source : Source) (now : ℕ) (r l : String) (s : Arbitrator)
    → (decide_command source now r l s).0.accepted ≡ (
        if s.estop_active
        then false
        else elim (rejection_reason source now r l s) [ none ↦ true | some _ ↦ false ])
unfolding decide_command accept_command reject
accepted-decide source now r l s = ground arith

module _ (now : ℕ) (r l : String) (s : Arbitrator) where
  -- A task command is accepted exactly when there is no emergency stop, task control is active, and
  -- the command names, after stripping, the task and its lease, neither of them empty.
  pub receive-task_iff : ((receive task now r l s).0.accepted ≡ true) ↔ HoldsTask now r l s
  unfolding receive rejection_reason task_command_rejection_reason is_task_lease_holder
  receive-task_iff = ground (
    arith,
    accepted-decide task now (strip r) (strip l) (refresh_mode now s),
    estop_active-refresh_mode now s,
    task_active-refresh_mode now s,
    task-refresh_mode_active now s,
    strip-strip l,
    eq_iff (strip r) "",
    eq_iff (strip l) "",
    eq_iff (strip r) (refresh_mode now s).task.identity.task_id,
    eq_iff (strip (strip l)) (refresh_mode now s).task.lease_id,
  )

  pub receive-teleop_iff : ((receive teleop now r l s).0.accepted ≡ true) ↔ HoldsTeleop now r l s
  unfolding receive rejection_reason teleop_command_rejection_reason is_lease_holder is_holder
  receive-teleop_iff = ground (
    arith,
    accepted-decide teleop now (strip r) (strip l) (refresh_mode now s),
    estop_active-refresh_mode now s,
    task_active-refresh_mode now s,
    teleop_active-refresh_mode now s,
    teleop-refresh_mode_active now s,
    strip-strip l,
    strip-strip r,
    eq_iff (strip r) "",
    eq_iff (strip l) "",
    eq_iff (refresh_mode now s).teleop.lease_id "",
    eq_iff (strip (strip r)) (refresh_mode now s).teleop.holder_id,
    eq_iff (strip (strip l)) (refresh_mode now s).teleop.lease_id,
  )

  pub receive-motion_iff : ((receive motion now r l s).0.accepted ≡ true) ↔ MotionFree now s
  unfolding receive rejection_reason motion_command_rejection_reason
  receive-motion_iff = ground (
    arith,
    accepted-decide motion now (strip r) (strip l) (refresh_mode now s),
    estop_active-refresh_mode now s,
    task_active-refresh_mode now s,
    teleop_active-refresh_mode now s,
  )

abbrev pub MayCommand : Source → ℕ → String → String → Arbitrator → Type 0
MayCommand task now r l s = HoldsTask now r l s
MayCommand teleop now r l s = HoldsTeleop now r l s
MayCommand motion now r l s = MotionFree now s

-- A command is accepted exactly when no emergency stop is active and, for a task command, task control
-- is active and the command names (after stripping) the active task and its lease, neither of them
-- empty; for a teleop command, no task is active, teleop control is, and the command names its holder
-- (not empty) and its lease; for a motion command, neither task nor teleop control is active.
pub receive_iff :
    (source : Source) (now : ℕ) (requester_id lease_id : String) (s : Arbitrator)
    → ((receive source now requester_id lease_id s).0.accepted ≡ true)
      ↔ MayCommand source now requester_id lease_id s
receive_iff task now r l s = receive-task_iff now r l s
receive_iff teleop now r l s = receive-teleop_iff now r l s
receive_iff motion now r l s = receive-motion_iff now r l s

-- A check of a task operation is accepted exactly when a task command with the same lease, in the name
-- of the same task, is, and the trace and the session are the active task's too. This is asked of
-- arbitrators that meet the invariant; the check itself compares every field.
pub validate-receive :
    (now : ℕ) (i : Identity) (lease_id : String) (s : Arbitrator)
    → Inv s
    → ((validate_task_operation now i lease_id s).0.accepted ≡ true) ↔ (
        ((receive task now i.task_id lease_id s).0.accepted ≡ true)
        × (strip i.trace_id ≡ s.task.identity.trace_id)
        × (strip i.session_id ≡ s.task.identity.session_id))
unfolding validate_task_operation task_operation_reason answer missing_identity_reason
    task_lease_reason task_identity_mismatch_reason strip_identity is_task_lease_holder all_given
    is_task_control_active within
validate-receive now i l s h = ground (
  arith,
  receive-task_iff now i.task_id l s,
  estop_active-refresh_mode now s,
  task_active-refresh_mode now s,
  task-refresh_mode_active now s,
  strip-strip l,
  config-refresh_mode now s,
  eq_iff (strip i.task_id) "",
  eq_iff (strip i.trace_id) "",
  eq_iff (strip i.session_id) "",
  eq_iff (strip l) "",
  eq_iff (strip i.task_id) (refresh_mode now s).task.identity.task_id,
  eq_iff (strip i.trace_id) (refresh_mode now s).task.identity.trace_id,
  eq_iff (strip i.session_id) (refresh_mode now s).task.identity.session_id,
  eq_iff (strip (strip l)) (refresh_mode now s).task.lease_id,
  eq_iff s.task.identity.trace_id "",
  eq_iff s.task.identity.session_id "",
)
