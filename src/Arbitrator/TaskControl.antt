-- ===== src/Arbitrator/TaskControl.antt =====
-- `receive_task_control`, `reject_task_control` (of the node's own gate) and
-- `validate_task_operation`.
use robot_runtime.Prelude.{
  Bool, Option, String, contains, false, if◌then◌else◌, is_empty, lower, nat_eq, none, not, some,
  string_eq, strip, true, ℕ, ◌+◌, ◌==◌, ◌||◌,
}
use robot_runtime.Arbitrator.Refresh.{
  clear_task_control, clear_teleop_control, is_task_control_active, is_task_lease_holder,
  refresh_mode,
}
use robot_runtime.Arbitrator.Replies.{
  Reply, accept_task_control, answer, reject_task_control, unless_refused,
}
use robot_runtime.Arbitrator.State.{Arbitrator, Identity, identity_eq}
use robot_runtime.Arbitrator.Tombstones.{remember_task_identity}

-- `TASK_CONTROL_ACTIONS`
unfoldable pub is_task_control_action : String → Bool
is_task_control_action action =
    action == "start" || action == "keepalive" || action == "finish" || action == "cancel"

-- `none` is the empty text that the code returns for "no mismatch".
unfoldable pub task_identity_mismatch_reason : Identity → Arbitrator → Option String
task_identity_mismatch_reason i s =
    if not (i.task_id == s.task.identity.task_id)
    then some "task_control_held_by_other_task"
    else if not (i.trace_id == s.task.identity.trace_id)
    then some "task_control_trace_mismatch"
    else if not (i.session_id == s.task.identity.session_id)
    then some "task_control_session_mismatch"
    else none

-- The three tests on an empty field, and the text for the first field that is empty.
unfoldable pub missing_identity_reason : Identity → Option String
missing_identity_reason i =
    if is_empty i.task_id
    then some "task_id_required"
    else if is_empty i.trace_id
    then some "task_trace_id_required"
    else if is_empty i.session_id
    then some "task_session_id_required"
    else none

-- The second test is made where the first gives no reason.
abbrev pub earlier_reason : Option String → Option String → Option String
earlier_reason none second = second
earlier_reason (some reason) second = some reason

-- The tests in front of every use of a lease that is held: the identity, then the lease.
unfoldable pub task_lease_reason : Identity → String → Arbitrator → Option String
task_lease_reason i lease_id s = earlier_reason (task_identity_mismatch_reason i s) (
    if is_empty lease_id
    then some "task_lease_required"
    else if not (is_task_lease_holder lease_id s)
    then some "task_lease_mismatch"
    else none)

-- The fields that `start` writes where no task is active. The factory is called once.
unfoldable pub grant_task : Identity → Arbitrator → Arbitrator
unfolding clear_teleop_control
grant_task i s =
    let granted = record s {
      task = record s.task {
        identity = i;
        lease_id = s.config.task_lease_id_factory s.task_leases_made;
      };
      task_leases_made = s.task_leases_made + 1;
    } in
    record (clear_teleop_control granted) { last_motion_time = none }

unfoldable pub touch_task : ℕ → Arbitrator → Arbitrator
touch_task now s = record s { task = record s.task { last_time = some now } }

unfoldable pub renew_or_reject : String → ℕ → Identity → String → Arbitrator → Reply
renew_or_reject action now i lease_id s =
    unless_refused (task_lease_reason i lease_id s)
      (λ reason. reject_task_control action i.task_id reason s)
      (accept_task_control action i.task_id now (touch_task now s))

-- The branch `normalized_action == 'start'`.
unfoldable pub start_task : String → ℕ → Identity → String → Arbitrator → Reply
start_task action now i lease_id s =
    if is_task_control_active now s
    then renew_or_reject action now i lease_id s
    else if contains i s.tombstones.identity_set
    then reject_task_control action i.task_id "task_control_replay" s
    else accept_task_control action i.task_id now (touch_task now (grant_task i s))

-- `finish` and `cancel`: the lease goes, and the identity is remembered.
unfoldable pub end_task : Arbitrator → Arbitrator
unfolding remember_task_identity clear_task_control
end_task s = clear_task_control (remember_task_identity s)

-- `keepalive`, `finish` and `cancel`.
unfoldable pub hold_task : String → ℕ → Identity → String → Arbitrator → Reply
hold_task action now i lease_id s =
    if not (is_task_control_active now s)
    then reject_task_control action i.task_id "task_control_not_granted" s
    else unless_refused (task_lease_reason i lease_id s)
        (λ reason. reject_task_control action i.task_id reason s)
        (accept_task_control action i.task_id now
          (if action == "keepalive" then touch_task now s else end_task s))

-- What follows the refresh, with every text stripped.
unfoldable pub decide_task_control : String → ℕ → Identity → String → Arbitrator → Reply
decide_task_control action now i lease_id s =
    if not (is_task_control_action action)
    then reject_task_control action i.task_id "unsupported_task_control_action" s
    else unless_refused (missing_identity_reason i)
        (λ reason. reject_task_control action i.task_id reason s)
        (if s.estop_active
          then reject_task_control action i.task_id "estop" s
          else if action == "start"
          then start_task action now i lease_id s
          else hold_task action now i lease_id s)

unfoldable pub strip_identity : Identity → Identity
strip_identity i = record {
  task_id = strip i.task_id;
  trace_id = strip i.trace_id;
  session_id = strip i.session_id;
}

-- `last_task_control_action` and the three identity fields beside it.
unfoldable pub log_task_request : String → Identity → Arbitrator → Arbitrator
log_task_request action i s = record s {
  task_log = record s.task_log { action = action; identity = i };
}

unfoldable pub receive_task_control : String → ℕ → Identity → String → Arbitrator → Reply
receive_task_control action now identity lease_id s =
    let normalized = lower (strip action) in
    let i = strip_identity identity in
    decide_task_control normalized now i (strip lease_id)
      (log_task_request normalized i (refresh_mode now s))

-- `reject_task_control`: the node's own gate turned the request away.
unfoldable pub reject_task_control_outside : String → ℕ → Identity → String → Arbitrator → Reply
reject_task_control_outside action now identity reason s =
    let normalized = lower (strip action) in
    let i = strip_identity identity in
    reject_task_control normalized i.task_id (strip reason)
      (log_task_request normalized i (refresh_mode now s))

unfoldable pub task_operation_reason : ℕ → Identity → String → Arbitrator → Option String
task_operation_reason now i lease_id s =
    if s.estop_active
    then some "estop"
    else if not (is_task_control_active now s)
    then some "task_control_not_granted"
    else earlier_reason (missing_identity_reason i) (task_lease_reason i lease_id s)

-- No counter changes, but leases that ran out are cleared.
unfoldable pub validate_task_operation : ℕ → Identity → String → Arbitrator → Reply
validate_task_operation now identity lease_id s0 =
    let s = refresh_mode now s0 in
    unless_refused (task_operation_reason now (strip_identity identity) (strip lease_id) s)
      (λ reason. answer false reason s) (answer true "accepted" s)
