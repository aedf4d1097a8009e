-- ===== src/Arbitrator/TeleopControl.antt =====
-- `receive_teleop_control`: claim, keepalive and release.
use robot_runtime.Prelude.{
  Bool, Option, String, if◌then◌else◌, is_empty, lower, nat_eq, none, not, some, string_eq, strip,
  ℕ, ◌&&◌, ◌+◌, ◌==◌, ◌||◌,
}
use robot_runtime.Arbitrator.Refresh.{
  clear_teleop_control, is_holder, is_lease_holder, is_task_control_active,
  is_teleop_control_active, refresh_mode,
}
use robot_runtime.Arbitrator.Replies.{
  Reply, accept_teleop_control, reject_teleop_control, unless_refused,
}
use robot_runtime.Arbitrator.State.{Arbitrator, identity_eq}

-- `TELEOP_CONTROL_ACTIONS`
unfoldable pub is_teleop_control_action : String → Bool
is_teleop_control_action action = action == "claim" || action == "keepalive" || action == "release"

-- `_claim_lease_id`: the holder keeps its lease, anyone else gets a new one.
unfoldable pub claim_lease_id : ℕ → String → Arbitrator → String × Arbitrator
claim_lease_id now requester_id s =
    if is_teleop_control_active now s
      && (is_holder requester_id s && not (is_empty s.teleop.lease_id))
    then (s.teleop.lease_id, s)
    else (s.config.lease_id_factory s.leases_made, record s { leases_made = s.leases_made + 1 })

unfoldable pub set_teleop : String → String → Option ℕ → Arbitrator → Arbitrator
set_teleop holder_id lease_id time s = record s {
  teleop = record { holder_id = holder_id; lease_id = lease_id; last_time = time };
}

-- The code writes the holder before it asks for the lease, so a claim while the lease runs always
-- meets its own requester as the holder there.
unfoldable pub grant_teleop : String → ℕ → String → Arbitrator → Reply
grant_teleop action now requester_id s =
    let held = record s { teleop = record s.teleop { holder_id = requester_id } } in
    let (lease, made) = claim_lease_id now requester_id held in
    accept_teleop_control action now requester_id lease
      (set_teleop requester_id lease (some now) made)

unfoldable pub claim : String → ℕ → String → Arbitrator → Reply
claim action now requester_id s =
    if s.estop_active
    then reject_teleop_control action "estop" s
    else if is_task_control_active now s
    then reject_teleop_control action "task_active" s
    else if is_teleop_control_active now s && not (is_holder requester_id s)
    then reject_teleop_control action "teleop_control_held_by_other" s
    else grant_teleop action now requester_id s

-- The tests in front of `keepalive` and `release`. A lease may be left out.
unfoldable pub teleop_hold_reason : ℕ → String → String → Arbitrator → Option String
teleop_hold_reason now requester_id lease_id s =
    if not (is_teleop_control_active now s)
    then some "teleop_control_not_granted"
    else if not (is_holder requester_id s)
    then some "teleop_control_not_holder"
    else if not (is_empty lease_id) && not (is_lease_holder lease_id s)
    then some "teleop_control_lease_mismatch"
    else none

unfoldable pub keep_teleop : String → ℕ → String → String → Arbitrator → Reply
keep_teleop action now requester_id lease_id s =
    unless_refused (teleop_hold_reason now requester_id lease_id s)
      (λ reason. reject_teleop_control action reason s)
      (accept_teleop_control action now requester_id s.teleop.lease_id
        (record s { teleop = record s.teleop { last_time = some now } }))

unfoldable pub release_teleop : String → ℕ → String → String → Arbitrator → Reply
release_teleop action now requester_id lease_id s =
    unless_refused (teleop_hold_reason now requester_id lease_id s)
      (λ reason. reject_teleop_control action reason s)
      (accept_teleop_control action now "" "" (clear_teleop_control s))

unfoldable pub decide_teleop_control : String → ℕ → String → String → Arbitrator → Reply
decide_teleop_control action now requester_id lease_id s =
    if not (is_teleop_control_action action)
    then reject_teleop_control action "unsupported_teleop_control_action" s
    else if action == "claim"
    then claim action now requester_id s
    else if action == "keepalive"
    then keep_teleop action now requester_id lease_id s
    else release_teleop action now requester_id lease_id s

-- `self.last_teleop_control_action = normalized_action`
unfoldable pub log_teleop_request : String → Arbitrator → Arbitrator
log_teleop_request action s = record s { teleop_log = record s.teleop_log { action = action } }

unfoldable pub receive_teleop_control : String → ℕ → String → String → Arbitrator → Reply
receive_teleop_control action now requester_id lease_id s =
    let normalized = lower (strip action) in
    decide_teleop_control normalized now (strip requester_id) (strip lease_id)
      (refresh_mode now (log_teleop_request normalized s))
