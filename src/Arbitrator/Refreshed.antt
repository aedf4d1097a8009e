-- ===== src/Arbitrator/Refreshed.antt =====
-- What a refresh leaves: each field of the new arbitrator in terms of the old one's.
use robot_runtime.Prelude.{arith, if◌then◌else◌, none, true, ℕ, ◌≡◌, ◌⊎◌}
use robot_runtime.Arbitrator.Refresh.{
  expired, is_task_control_active, is_teleop_control_active, refresh_mode, within,
}
use robot_runtime.Arbitrator.State.{
  Arbitrator, Config, TaskLease, TeleopLease, Tombstones, no_teleop,
}
use robot_runtime.Arbitrator.Tombstones.{remember}

-- A lease that has run out is dropped.
abbrev pub live_task : Config → ℕ → TaskLease → TaskLease
live_task config now t =
    if expired config.task_timeout t.last_time now
    then record t { lease_id = ""; last_time = none }
    else t

abbrev pub live_teleop : Config → ℕ → TeleopLease → TeleopLease
live_teleop config now t = if expired config.teleop_timeout t.last_time now then no_teleop else t

abbrev pub live_tombstones : ℕ → Arbitrator → Tombstones
live_tombstones now s =
    if expired s.config.task_timeout s.task.last_time now
    then remember s.config.tombstone_limit s.task.identity s.tombstones
    else s.tombstones

module _ (now : ℕ) (s : Arbitrator) where
  pub config-refresh_mode : (refresh_mode now s).config ≡ s.config
  unfolding refresh_mode
  config-refresh_mode = ground arith

  pub estop_active-refresh_mode : (refresh_mode now s).estop_active ≡ s.estop_active
  unfolding refresh_mode
  estop_active-refresh_mode = ground arith

  pub task-refresh_mode : (refresh_mode now s).task ≡ live_task s.config now s.task
  unfolding refresh_mode
  task-refresh_mode = ground arith

  pub teleop-refresh_mode : (refresh_mode now s).teleop ≡ live_teleop s.config now s.teleop
  unfolding refresh_mode
  teleop-refresh_mode = ground arith

  pub last_motion_time-refresh_mode : (refresh_mode now s).last_motion_time ≡ s.last_motion_time
  unfolding refresh_mode
  last_motion_time-refresh_mode = ground arith

  pub tombstones-refresh_mode : (refresh_mode now s).tombstones ≡ live_tombstones now s
  unfolding refresh_mode
  tombstones-refresh_mode = ground arith

  pub accepted_counts-refresh_mode : (refresh_mode now s).accepted_counts ≡ s.accepted_counts
  unfolding refresh_mode
  accepted_counts-refresh_mode = ground arith

  pub rejected_counts-refresh_mode : (refresh_mode now s).rejected_counts ≡ s.rejected_counts
  unfolding refresh_mode
  rejected_counts-refresh_mode = ground arith

  pub task_leases_made-refresh_mode : (refresh_mode now s).task_leases_made ≡ s.task_leases_made
  unfolding refresh_mode
  task_leases_made-refresh_mode = ground arith

  pub leases_made-refresh_mode : (refresh_mode now s).leases_made ≡ s.leases_made
  unfolding refresh_mode
  leases_made-refresh_mode = ground arith

-- A second refresh at the same time changes nothing.
pub refresh_mode-refresh_mode :
    (now : ℕ) (s : Arbitrator) → refresh_mode now (refresh_mode now s) ≡ refresh_mode now s
unfolding refresh_mode
refresh_mode-refresh_mode now s = ground arith

-- After a refresh a lease that is still there is active.
pub record Fresh (now : ℕ) (s : Arbitrator) : Type 0 where
  pub of_task : (s.task.last_time ≡ none) ⊎ (is_task_control_active now s ≡ true)
  pub of_teleop : (s.teleop.last_time ≡ none) ⊎ (is_teleop_control_active now s ≡ true)

pub refresh_mode-Fresh : (now : ℕ) (s : Arbitrator) → Fresh now (refresh_mode now s)
unfolding is_task_control_active is_teleop_control_active within expired
refresh_mode-Fresh now s =
    ground (arith, config-refresh_mode now s, task-refresh_mode now s, teleop-refresh_mode now s)
