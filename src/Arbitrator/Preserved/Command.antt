-- ===== src/Arbitrator/Preserved/Command.antt =====
-- The invariant through commands.
use robot_runtime.Prelude.{String, arith, false, none, strip, ℕ, ◌≡◌}
use robot_runtime.Arbitrator.Command.{
  accept_command, decide_command, motion_command_rejection_reason, receive, reject_outside,
  rejection_reason,
}
use robot_runtime.Arbitrator.Invariant.{Inv, KeepsInv, refresh_mode-Inv, reject-Inv}
use robot_runtime.Arbitrator.Preserved.Rules.{Inv-if, Inv-unless_refused}
use robot_runtime.Arbitrator.Refresh.{is_task_control_active, refresh_mode}
use robot_runtime.Arbitrator.Refreshed.{Fresh, refresh_mode-Fresh}
use robot_runtime.Arbitrator.State.{Arbitrator, Source, motion, task, teleop}

-- Only a motion command writes a field that the invariant reads.
MayMove : Source → Arbitrator → Type 0
MayMove motion s = (s.estop_active ≡ false) × (s.task.last_time ≡ none)
MayMove _ s = Unit {0}

accept_command-Inv :
    (source : Source) (now : ℕ) (requester_id : String) (s : Arbitrator)
    → MayMove source s
    → Inv s
    → KeepsInv (accept_command source now requester_id s)
unfolding accept_command MayMove
accept_command-Inv motion now requester_id s m h = record {
  inv = refresh_mode-Inv now (ground arith);
}
accept_command-Inv _ now requester_id s m h = record { inv = refresh_mode-Inv now (ground arith) }

no_task_of_motion :
    (now : ℕ) (s : Arbitrator)
    → motion_command_rejection_reason now s ≡ none
    → is_task_control_active now s ≡ false
unfolding motion_command_rejection_reason
no_task_of_motion now s h = ground arith

may_move :
    (source : Source) (now : ℕ) (requester_id lease_id : String) (s : Arbitrator)
    → Fresh now s
    → s.estop_active ≡ false
    → rejection_reason source now requester_id lease_id s ≡ none
    → MayMove source s
unfolding MayMove rejection_reason
may_move motion now requester_id lease_id s f e h = ground (arith, no_task_of_motion now s h)
may_move teleop now requester_id lease_id s f e h = tt
may_move task now requester_id lease_id s f e h = tt

decide_command-Inv :
    (source : Source) (now : ℕ) (requester_id lease_id : String) (s : Arbitrator)
    → Fresh now s
    → Inv s
    → KeepsInv (decide_command source now requester_id lease_id s)
unfolding decide_command
decide_command-Inv source now requester_id lease_id s f h =
    Inv-if s.estop_active _ _ (λ _. reject-Inv source "estop" requester_id h)
      λ running.
        Inv-unless_refused (rejection_reason source now requester_id lease_id s) _ _
          (λ reason. reject-Inv source reason requester_id h)
          λ free.
            accept_command-Inv source now requester_id s
              (may_move source now requester_id lease_id s f running free) h

pub receive-Inv :
    (source : Source) (now : ℕ) (requester_id lease_id : String) {s : Arbitrator}
    → Inv s
    → KeepsInv (receive source now requester_id lease_id s)
unfolding receive
receive-Inv source now requester_id lease_id {s} h =
    decide_command-Inv source now (strip requester_id) (strip lease_id) (refresh_mode now s)
      (refresh_mode-Fresh now s) (refresh_mode-Inv now h)

pub reject_outside-Inv :
    (source : Source) (now : ℕ) (requester_id reason : String) {s : Arbitrator}
    → Inv s
    → KeepsInv (reject_outside source now requester_id reason s)
unfolding reject_outside
reject_outside-Inv source now requester_id reason h =
    reject-Inv source (strip reason) (strip requester_id) (refresh_mode-Inv now h)
