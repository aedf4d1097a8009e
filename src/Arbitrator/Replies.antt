-- ===== src/Arbitrator/Replies.antt =====
-- The helpers that end a request: `_reject`, `_accept_task_control`, `_reject_task_control`,
-- `_accept_teleop_control`, `_reject_teleop_control`. A method that changes the arbitrator returns
-- its answer with the new arbitrator.
use robot_runtime.Prelude.{Bool, Option, String, false, none, some, strip, true, ℕ, ◌+◌}
use robot_runtime.Arbitrator.Refresh.{refresh_mode}
use robot_runtime.Arbitrator.State.{
  ArbitrationResult, Arbitrator, Counts, Source, motion, task, teleop,
}

abbrev pub Reply : Type 0
Reply = ArbitrationResult × Arbitrator

-- `if reason: return reject(reason)`, then the rest.
abbrev pub unless_refused : Option String → (String → Reply) → Reply → Reply
unless_refused none refuse rest = rest
unless_refused (some reason) refuse rest = refuse reason

-- `dict[source] += 1`
unfoldable pub bump : Source → Counts → Counts
bump teleop c = record c { teleop = c.teleop + 1 }
bump motion c = record c { motion = c.motion + 1 }
bump task c = record c { task = c.task + 1 }

-- `ArbitrationResult` with the mode and the source of the moment.
unfoldable pub answer : Bool → String → Arbitrator → Reply
answer accepted reason s = (
  record { accepted = accepted; mode = s.mode; reason = reason; active_source = s.active_source },
  s,
)

unfoldable pub log_task_command : Source → String → Bool → String → Arbitrator → Arbitrator
log_task_command task requester_id accepted reason s = record s {
  command_log = record { requester_id = requester_id; accepted = accepted; reason = reason };
}
log_task_command _ _ _ _ s = s

unfoldable pub reject : Source → String → String → Arbitrator → Reply
unfolding bump answer log_task_command
reject source reason requester_id s = answer false reason (
    log_task_command source (strip requester_id) false reason (record s {
      rejected_counts = bump source s.rejected_counts;
      last_rejection_reason = reason;
    }))

unfoldable pub accept_task_control : String → String → ℕ → Arbitrator → Reply
unfolding answer
accept_task_control action task_id now s = answer true "accepted" (
    refresh_mode now (record s {
      task_log = record s.task_log {
        accepted_count = s.task_log.accepted_count + 1;
        action = action;
        identity = record s.task_log.identity { task_id = task_id };
        accepted = true;
        reason = "accepted";
      };
    }))

unfoldable pub reject_task_control : String → String → String → Arbitrator → Reply
unfolding answer
reject_task_control action task_id reason s = answer false reason (record s {
  task_log = record s.task_log {
    rejected_count = s.task_log.rejected_count + 1;
    action = action;
    identity = record s.task_log.identity { task_id = task_id };
    accepted = false;
    reason = reason;
  };
  last_rejection_reason = reason;
})

unfoldable pub accept_teleop_control : String → ℕ → String → String → Arbitrator → Reply
unfolding answer
accept_teleop_control action now holder_id lease_id s = answer true "accepted" (
    refresh_mode now (record s {
      teleop_log = record s.teleop_log {
        accepted_count = s.teleop_log.accepted_count + 1;
        action = action;
        accepted = true;
        reason = "accepted";
      };
      teleop = record s.teleop { holder_id = holder_id; lease_id = lease_id };
    }))

unfoldable pub reject_teleop_control : String → String → Arbitrator → Reply
unfolding reject
reject_teleop_control action reason s = reject teleop reason "" (record s {
  teleop_log = record s.teleop_log {
    rejected_count = s.teleop_log.rejected_count + 1;
    action = action;
    accepted = false;
    reason = reason;
  };
})
