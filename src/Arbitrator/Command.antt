-- ===== src/Arbitrator/Command.antt =====
-- `receive_command` and `reject_command`.
use mathlib.Core.Option
use robot_runtime.Prelude.{
  Option, String, if◌then◌else◌, is_empty, nat_eq, none, not, some, string_eq, strip, true, ℕ, ◌&&◌,
  ◌==◌,
}
use robot_runtime.Arbitrator.Refresh.{
  is_holder, is_lease_holder, is_task_control_active, is_task_lease_holder,
  is_teleop_control_active, refresh_mode,
}
use robot_runtime.Arbitrator.Replies.{Reply, answer, bump, log_task_command, reject, unless_refused}
use robot_runtime.Arbitrator.State.{Arbitrator, Source, identity_eq, motion, task, teleop}

-- `_validate_source`: `none` is the `ValueError`.
unfoldable pub validate_source : String → Option Source
validate_source source =
    if source == "teleop"
    then some teleop
    else if source == "motion"
    then some motion
    else if source == "task"
    then some task
    else none

-- `none` is the empty text that the code returns for "no reason".
unfoldable pub task_command_rejection_reason : ℕ → String → String → Arbitrator → Option String
task_command_rejection_reason now requester_id lease_id s =
    if not (is_task_control_active now s)
    then some "task_control_not_granted"
    else if is_empty requester_id
    then some "task_requester_id_required"
    else if not (requester_id == s.task.identity.task_id)
    then some "task_control_not_holder"
    else if is_empty lease_id
    then some "task_lease_required"
    else if not (is_task_lease_holder lease_id s)
    then some "task_lease_mismatch"
    else none

-- The checks on a teleop command, in the code's order.
unfoldable pub teleop_command_rejection_reason : ℕ → String → String → Arbitrator → Option String
teleop_command_rejection_reason now requester_id lease_id s =
    if is_task_control_active now s
    then some "task_active"
    else if not (is_teleop_control_active now s)
    then some "teleop_control_not_granted"
    else if is_empty requester_id
    then some "teleop_requester_id_required"
    else if not (is_holder requester_id s)
    then some "teleop_control_not_holder"
    else if not (is_empty s.teleop.lease_id) && is_empty lease_id
    then some "teleop_control_lease_required"
    else if not (is_lease_holder lease_id s)
    then some "teleop_control_lease_mismatch"
    else none

unfoldable pub motion_command_rejection_reason : ℕ → Arbitrator → Option String
motion_command_rejection_reason now s =
    if is_task_control_active now s
    then some "task_active"
    else if is_teleop_control_active now s
    then some "teleop_active"
    else none

-- The checks behind the one on the emergency stop, which concern one source each.
unfoldable pub rejection_reason : Source → ℕ → String → String → Arbitrator → Option String
unfolding task_command_rejection_reason teleop_command_rejection_reason
    motion_command_rejection_reason
rejection_reason task now requester_id lease_id s =
    task_command_rejection_reason now requester_id lease_id s
rejection_reason teleop now requester_id lease_id s =
    teleop_command_rejection_reason now requester_id lease_id s
rejection_reason motion now requester_id lease_id s = motion_command_rejection_reason now s

-- `if source == 'motion': self.last_motion_time = now_sec`
unfoldable pub note_motion : Source → ℕ → Arbitrator → Arbitrator
note_motion motion now s = record s { last_motion_time = some now }
note_motion _ now s = s

unfoldable pub accept_command : Source → ℕ → String → Arbitrator → Reply
unfolding note_motion log_task_command bump answer
accept_command source now requester_id s =
    let noted = log_task_command source requester_id true "accepted" (note_motion source now s) in
    answer true "accepted"
      (refresh_mode now (record noted { accepted_counts = bump source noted.accepted_counts }))

-- The requester of a rejected task command is logged; the other rejections pass none, and log none.
unfoldable pub decide_command : Source → ℕ → String → String → Arbitrator → Reply
decide_command source now requester_id lease_id s =
    let reason = rejection_reason source now requester_id lease_id s in
    if s.estop_active
    then reject source "estop" requester_id s
    else unless_refused reason (λ text. reject source text requester_id s)
        (accept_command source now requester_id s)

unfoldable pub receive : Source → ℕ → String → String → Arbitrator → Reply
receive source now requester_id lease_id s =
    decide_command source now (strip requester_id) (strip lease_id) (refresh_mode now s)

unfoldable pub receive_command : String → ℕ → String → String → Arbitrator → Option Reply
receive_command source now requester_id lease_id s =
    Option.map (λ valid. receive valid now requester_id lease_id s) (validate_source source)

-- A command that the node's own safety gate turned away.
unfoldable pub reject_outside : Source → ℕ → String → String → Arbitrator → Reply
reject_outside source now requester_id reason s =
    reject source (strip reason) (strip requester_id) (refresh_mode now s)

unfoldable pub reject_command : String → ℕ → String → String → Arbitrator → Option Reply
reject_command source now requester_id reason s =
    Option.map (λ valid. reject_outside valid now requester_id reason s) (validate_source source)
