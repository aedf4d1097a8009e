-- ===== src/Arbitrator/Invariant.antt =====
-- What holds of an arbitrator between two calls: who holds control, and what a free lease looks like.
use robot_runtime.Prelude.{String, arith, none, true, ℕ, ◌≡◌, ◌⊎◌}
use robot_runtime.Arbitrator.Refresh.{
  choose_mode, clear_expired_task_control, clear_expired_teleop_control, refresh_mode,
}
use robot_runtime.Arbitrator.Replies.{
  Reply, accept_task_control, accept_teleop_control, reject, reject_task_control,
  reject_teleop_control,
}
use robot_runtime.Arbitrator.State.{Arbitrator, Config, Source, new, no_teleop}
use robot_runtime.Arbitrator.Tombstones.{all_given}

pub record Inv (s : Arbitrator) : Type 0 where
  pub stopped :
      s.estop_active ≡ true
      → (s.task.last_time ≡ none) × (s.teleop.last_time ≡ none) × (s.last_motion_time ≡ none)
  pub exclusive :
      (s.task.last_time ≡ none) ⊎ ((s.teleop.last_time ≡ none) × (s.last_motion_time ≡ none))
  pub task_free : s.task.last_time ≡ none → s.task.lease_id ≡ ""
  pub teleop_free : s.teleop.last_time ≡ none → s.teleop ≡ no_teleop
  pub task_named : (s.task.last_time ≡ none) ⊎ (all_given s.task.identity ≡ true)

pub new-Inv : (config : Config) → Inv (new config)
unfolding new
new-Inv config = ground arith

pub choose_mode-Inv : (now : ℕ) {s : Arbitrator} → Inv s → Inv (choose_mode now s)
unfolding choose_mode
choose_mode-Inv now h = ground arith

pub clear_expired_task_control-Inv :
    (now : ℕ) {s : Arbitrator} → Inv s → Inv (clear_expired_task_control now s)
unfolding clear_expired_task_control
clear_expired_task_control-Inv now h = ground arith

pub clear_expired_teleop_control-Inv :
    (now : ℕ) {s : Arbitrator} → Inv s → Inv (clear_expired_teleop_control now s)
unfolding clear_expired_teleop_control
clear_expired_teleop_control-Inv now h = ground arith

pub refresh_mode-Inv : (now : ℕ) {s : Arbitrator} → Inv s → Inv (refresh_mode now s)
unfolding refresh_mode
refresh_mode-Inv now h =
    choose_mode-Inv now
      (clear_expired_teleop_control-Inv now (clear_expired_task_control-Inv now h))

-- The arbitrator that comes back with an answer meets the invariant.
pub record KeepsInv (r : Reply) : Type 0 where
  pub inv : Inv r.1

-- Writes that `Inv` does not read.
pub reject-Inv :
    (source : Source) (reason requester_id : String) {s : Arbitrator}
    → Inv s
    → KeepsInv (reject source reason requester_id s)
unfolding reject
reject-Inv source reason requester_id h = record { inv = ground arith }

pub reject_task_control-Inv :
    (action task_id reason : String) {s : Arbitrator}
    → Inv s
    → KeepsInv (reject_task_control action task_id reason s)
unfolding reject_task_control
reject_task_control-Inv action task_id reason h = record { inv = ground arith }

pub accept_task_control-Inv :
    (action task_id : String) (now : ℕ) {s : Arbitrator}
    → Inv s
    → KeepsInv (accept_task_control action task_id now s)
unfolding accept_task_control
accept_task_control-Inv action task_id now h = record { inv = refresh_mode-Inv now (ground arith) }

pub reject_teleop_control-Inv :
    (action reason : String) {s : Arbitrator}
    → Inv s
    → KeepsInv (reject_teleop_control action reason s)
unfolding reject_teleop_control
reject_teleop_control-Inv action reason h = record { inv = ground arith }

-- The lease of the answer is written over the state's, so what Inv asks is asked of the two together.
pub accept_teleop_control-Inv :
    (action : String) (now : ℕ) (holder_id lease_id : String) (s : Arbitrator)
    → Inv (record s { teleop = record s.teleop { holder_id = holder_id; lease_id = lease_id } })
    → KeepsInv (accept_teleop_control action now holder_id lease_id s)
unfolding accept_teleop_control
accept_teleop_control-Inv action now holder_id lease_id s h = record {
  inv = refresh_mode-Inv now (ground arith);
}
