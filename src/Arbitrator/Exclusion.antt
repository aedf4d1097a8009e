-- ===== src/Arbitrator/Exclusion.antt =====
-- Who drives the robot, over runs of calls.
use robot_runtime.Prelude.{List, arith, false, if◌then◌else◌, true, ℕ, ◌↔◌, ◌≡◌}
use robot_runtime.Arbitrator.Estop.{Snapshot, snapshot}
use robot_runtime.Arbitrator.Events.{Event, run, run-Inv}
use robot_runtime.Arbitrator.Invariant.{Inv, new-Inv, refresh_mode-Inv}
use robot_runtime.Arbitrator.Refresh.{
  choose_mode, is_motion_active, is_task_control_active, is_teleop_control_active, refresh_mode,
  set_mode, within,
}
use robot_runtime.Arbitrator.State.{
  Arbitrator, Config, estop, idle, motion_active, new, task_active, teleop_active,
}

-- What a snapshot says about who is in control.
pub record IsExclusive (n : Snapshot) : Type 0 where
  pub task_alone : n.task_active ≡ true → (n.teleop_active ≡ false) × (n.motion_active ≡ false)
  pub stopped :
      n.state.estop_active ≡ true
      → (n.task_active ≡ false) × (n.teleop_active ≡ false) × (n.motion_active ≡ false)
  pub stop_shown : (n.state.estop_active ≡ true) ↔ (n.state.mode ≡ estop)
  pub task_shown : (n.task_active ≡ true) ↔ (n.state.mode ≡ task_active)

mode_of :
    (now : ℕ) (s : Arbitrator)
    → let t = refresh_mode now s in
      t.mode ≡ (
        if t.estop_active
        then estop
        else if is_task_control_active now t
        then task_active
        else if is_teleop_control_active now t
        then teleop_active
        else if is_motion_active now t
        then motion_active
        else idle)
unfolding refresh_mode choose_mode set_mode
mode_of now s = ground arith

snapshot-IsExclusive : (now : ℕ) (s : Arbitrator) → Inv s → IsExclusive (snapshot now s)
unfolding snapshot is_task_control_active is_teleop_control_active is_motion_active within
snapshot-IsExclusive now s h = ground (arith, refresh_mode-Inv now h, mode_of now s)

-- Whatever calls were made since the arbitrator was built, a snapshot shows at most one kind of
-- control beside a task: while a task is active neither teleop nor plain motion is; during an
-- emergency stop none of the three is; the mode is `estop` exactly during the stop, and
-- `task_active` exactly while a task is active.
pub run-IsExclusive :
    (config : Config) (es : List Event) (now : ℕ) → IsExclusive (snapshot now (run es (new config)))
run-IsExclusive config es now = snapshot-IsExclusive now _ (run-Inv es (new-Inv config))
