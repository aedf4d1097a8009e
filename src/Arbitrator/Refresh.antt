-- ===== src/Arbitrator/Refresh.antt =====
-- Leases that run out, and `_refresh_mode`.
use robot_runtime.Prelude.{
  Bool, Option, String, false, if◌then◌else◌, leb, nat_eq, none, not, some, string_eq, strip, ℕ,
  ◌+◌, ◌-◌, ◌==◌,
}
use robot_runtime.Arbitrator.State.{
  Arbitrator, Identity, Mode, Source, estop, identity_eq, idle, motion, motion_active, no_teleop,
  task, task_active, teleop, teleop_active,
}
use robot_runtime.Arbitrator.Tombstones.{remember_task_identity}

-- `last is not None and (now - last) <= timeout`
unfoldable pub within : ℕ → Option ℕ → ℕ → Bool
within timeout none now = false
within timeout (some last) now = leb (now - last) timeout

-- `last is not None and not (now - last) <= timeout`
unfoldable pub expired : ℕ → Option ℕ → ℕ → Bool
expired timeout none now = false
expired timeout (some last) now = not (leb (now - last) timeout)

unfoldable pub is_teleop_control_active : ℕ → Arbitrator → Bool
is_teleop_control_active now s = within s.config.teleop_timeout s.teleop.last_time now

unfoldable pub is_task_control_active : ℕ → Arbitrator → Bool
is_task_control_active now s = within s.config.task_timeout s.task.last_time now

-- `_is_source_active('motion', now)`
unfoldable pub is_motion_active : ℕ → Arbitrator → Bool
is_motion_active now s = within s.config.motion_timeout s.last_motion_time now

unfoldable pub is_holder : String → Arbitrator → Bool
is_holder requester_id s = strip requester_id == s.teleop.holder_id

unfoldable pub is_lease_holder : String → Arbitrator → Bool
is_lease_holder lease_id s = strip lease_id == s.teleop.lease_id

unfoldable pub is_task_lease_holder : String → Arbitrator → Bool
is_task_lease_holder lease_id s = strip lease_id == s.task.lease_id

-- The task's identity stays, for the snapshot and for the log.
unfoldable pub clear_task_control : Arbitrator → Arbitrator
clear_task_control s = record s { task = record s.task { lease_id = ""; last_time = none } }

unfoldable pub clear_teleop_control : Arbitrator → Arbitrator
clear_teleop_control s = record s { teleop = no_teleop }

unfoldable pub log_task_end : String → String → Identity → Arbitrator → Arbitrator
log_task_end action reason identity s = record s {
  task_log = record s.task_log {
    action = action;
    identity = identity;
    accepted = false;
    reason = reason;
  };
}

unfoldable pub clear_expired_task_control : ℕ → Arbitrator → Arbitrator
unfolding expired remember_task_identity clear_task_control log_task_end
clear_expired_task_control now s =
    if expired s.config.task_timeout s.task.last_time now
    then log_task_end "timeout" "task_lease_expired" s.task.identity
        (clear_task_control (remember_task_identity s))
    else s

unfoldable pub clear_expired_teleop_control : ℕ → Arbitrator → Arbitrator
unfolding expired clear_teleop_control
clear_expired_teleop_control now s =
    if expired s.config.teleop_timeout s.teleop.last_time now then clear_teleop_control s else s

unfoldable pub set_mode : Mode → Option Source → Arbitrator → Arbitrator
set_mode mode source s = record s { mode = mode; active_source = source }

-- The tests of `_refresh_mode` behind the two removals.
unfoldable pub choose_mode : ℕ → Arbitrator → Arbitrator
unfolding is_task_control_active is_teleop_control_active is_motion_active set_mode
choose_mode now s =
    if s.estop_active
    then set_mode estop none s
    else if is_task_control_active now s
    then set_mode task_active (some task) s
    else if is_teleop_control_active now s
    then set_mode teleop_active (some teleop) s
    else if is_motion_active now s
    then set_mode motion_active (some motion) s
    else set_mode idle none s

unfoldable pub refresh_mode : ℕ → Arbitrator → Arbitrator
unfolding clear_expired_task_control clear_expired_teleop_control choose_mode
refresh_mode now s =
    choose_mode now (clear_expired_teleop_control now (clear_expired_task_control now s))

-- `max(0.0, timeout - (now - last))`, where `now` may be before `last`
unfoldable pub remaining : ℕ → Option ℕ → ℕ → ℕ
remaining timeout none now = 0
remaining timeout (some last) now = timeout + last - now
