-- ===== src/Teleop/Allowed.antt =====
-- The bridge's check of a command, beside the arbitrator that published the state which it looks at.
use robot_runtime.Arbitrator.Command.{receive}
use robot_runtime.Prelude.{
  Bool, String, arith, eq_iff, false, if◌then◌else◌, none, not, some, string_eq, strip, true, ℕ,
  ◌&&◌, ◌==◌, ◌≡◌, ◌≢◌, ◌↔◌, refl,
}
use robot_runtime.Arbitrator.Admission.{
  teleop_active-refresh_mode, task_active-refresh_mode, teleop-refresh_mode_active,
  receive-teleop_iff,
}
use robot_runtime.Arbitrator.Estop.{snapshot}
use robot_runtime.Arbitrator.Refresh.{
  choose_mode, clear_expired_task_control, clear_expired_teleop_control, is_task_control_active,
  is_teleop_control_active, refresh_mode, set_mode, is_motion_active,
}
use robot_runtime.Arbitrator.Refreshed.{estop_active-refresh_mode}
use robot_runtime.Arbitrator.State.{
  Arbitrator, estop, task_active, task, teleop_active, teleop, motion_active, motion, idle,
}
use robot_runtime.Manager.Published.{execution_state, publish_state, source_text}
use robot_runtime.Manager.State.{Manager}
use robot_runtime.Teleop.Bridge.{teleop_rejection_reason, view_of}

chosen_source :
    (stopped by_task by_teleop by_motion : Bool) (s : Arbitrator)
    → (source_text
          (if stopped
            then set_mode estop none s
            else if by_task
            then set_mode task_active (some task) s
            else if by_teleop
            then set_mode teleop_active (some teleop) s
            else if by_motion
            then set_mode motion_active (some motion) s
            else set_mode idle none s).active_source
        == "teleop")
      ≡ (not stopped && not by_task && by_teleop)
unfolding source_text set_mode
chosen_source true by_task by_teleop by_motion s = refl
chosen_source false true by_teleop by_motion s = refl
chosen_source false false true by_motion s = refl
chosen_source false false false true s = refl
chosen_source false false false false s = refl

mode_source :
    (now : ℕ) (s : Arbitrator)
    → (source_text (choose_mode now s).active_source == "teleop")
      ≡ (not s.estop_active && not (is_task_control_active now s) && is_teleop_control_active now s)
unfolding choose_mode
mode_source now s =
    chosen_source s.estop_active (is_task_control_active now s) (is_teleop_control_active now s)
      (is_motion_active now s) s

kept_mode :
    (now : ℕ) (s : Arbitrator)
    → ((choose_mode now s).estop_active ≡ s.estop_active)
      × (is_task_control_active now (choose_mode now s) ≡ is_task_control_active now s)
      × (is_teleop_control_active now (choose_mode now s) ≡ is_teleop_control_active now s)
unfolding choose_mode is_task_control_active is_teleop_control_active
kept_mode now s = ground arith

mode_source_after :
    (now : ℕ) (s : Arbitrator)
    → (source_text (choose_mode now s).active_source == "teleop") ≡ (
        not (choose_mode now s).estop_active
        && not (is_task_control_active now (choose_mode now s))
        && is_teleop_control_active now (choose_mode now s))
mode_source_after now s = ground (arith, mode_source now s, kept_mode now s)

refreshed_source :
    (now : ℕ) (s : Arbitrator)
    → (source_text (refresh_mode now s).active_source == "teleop") ≡ (
        not (refresh_mode now s).estop_active
        && not (is_task_control_active now (refresh_mode now s))
        && is_teleop_control_active now (refresh_mode now s))
unfolding refresh_mode
refreshed_source now s =
    mode_source_after now (clear_expired_teleop_control now (clear_expired_task_control now s))

-- The published source is teleop exactly when nothing stands before it.
source_is_teleop :
    (now : ℕ) (s : Arbitrator)
    → (source_text (refresh_mode now s).active_source == "teleop")
      ≡ (not s.estop_active && not (is_task_control_active now s) && is_teleop_control_active now s)
source_is_teleop now s = ground (
  arith,
  refreshed_source now s,
  estop_active-refresh_mode now s,
  task_active-refresh_mode now s,
  teleop_active-refresh_mode now s,
)

-- On the state that the execution manager has just published, the bridge allows a command exactly when
-- the arbitrator behind that state would accept it, given that a lease in force is not the empty text.
-- The identity and the lease of a connection are stripped.
pub bridge_agrees :
    (now : ℕ) (requester_id lease_id : String) (m : Manager)
    → (is_teleop_control_active now m.arbitrator ≡ true → m.arbitrator.teleop.lease_id ≢ "")
    → (teleop_rejection_reason
          (view_of (publish_state now m).1)
          (strip requester_id)
          (strip lease_id)
        ≡ none)
      ↔ ((receive teleop now requester_id lease_id m.arbitrator).0.accepted ≡ true)
unfolding teleop_rejection_reason view_of publish_state execution_state snapshot
bridge_agrees now requester_id lease_id m named = ground (
  arith,
  receive-teleop_iff now requester_id lease_id m.arbitrator,
  source_is_teleop now m.arbitrator,
  teleop_active-refresh_mode now m.arbitrator,
  teleop-refresh_mode_active now m.arbitrator,
  eq_iff (strip requester_id) "",
  eq_iff (strip lease_id) "",
  eq_iff m.arbitrator.teleop.lease_id "",
  eq_iff m.arbitrator.teleop.holder_id (strip requester_id),
  eq_iff m.arbitrator.teleop.lease_id (strip lease_id),
)
