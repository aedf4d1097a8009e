-- ===== src/Teleop/Bridge.antt =====
-- bridge_node.py: what the bridge keeps of the state that the execution manager publishes, the check of
-- a servo command against it, the motion command that it publishes, and the requests for teleop control.
-- A context is the identity of the connection; `_extract_requester_id` and `_extract_lease_id` strip it.
-- `speed` of a parsed command is its `duration_ms`.
use mathlib.Core.Option
use robot_runtime.Prelude.{
  Bool, Option, String, false, if◌then◌else◌, is_empty, lower, none, not, some, string_eq, strip, ℕ,
  ◌&&◌, ◌==◌, ◌||◌,
}
use robot_runtime.Manager.Commands.{MotionCommand}
use robot_runtime.Manager.Published.{ExecutionState}
use robot_runtime.Manager.Service.{or_else}
use robot_runtime.Prelude.Int.{int_eq, ℤ}
use robot_runtime.Teleop.Json.{Run, done}
use robot_runtime.Teleop.Parse.{ParsedCommand}
use robot_runtime.Teleop.Position.{
  motion_value_encoding, resolve_command_duration, normalize_motion_position,
}

pub record Context : Type 0 where
  pub requester_id : String
  pub lease_id : String

abbrev pub stripped_context : Context → Context
stripped_context context = record {
  requester_id = strip context.requester_id;
  lease_id = strip context.lease_id;
}

-- The entries of `latest_execution_state` that the bridge reads. Before the first message the
-- dictionary is empty, which reads as the empty entries.
pub record View : Type 0 where
  pub mode : String
  pub active_source : String
  pub teleop_holder_id : String
  pub teleop_lease_id : String
  pub estop_active : Bool
  pub teleop_active : Bool
  pub motion_active : Bool
  pub task_active : Bool

unfoldable pub no_view : View
no_view = record {
  mode = "";
  active_source = "";
  teleop_holder_id = "";
  teleop_lease_id = "";
  estop_active = false;
  teleop_active = false;
  motion_active = false;
  task_active = false;
}

-- `_execution_state_msg_to_dict`; an empty source becomes `None` there, which reads as empty.
unfoldable pub view_of : ExecutionState → View
view_of msg = record {
  mode = msg.mode;
  active_source = msg.active_source;
  teleop_holder_id = msg.teleop_holder_id;
  teleop_lease_id = msg.teleop_lease_id;
  estop_active = msg.estop_active;
  teleop_active = msg.teleop_active;
  motion_active = msg.motion_active;
  task_active = msg.mode == "task_active" || msg.active_source == "task";
}

-- `none` where the command is allowed.
unfoldable pub teleop_rejection_reason : View → String → String → Option String
teleop_rejection_reason view requester_id lease_id =
    if not view.teleop_active || not (view.active_source == "teleop")
    then some "teleop_control_not_granted"
    else if is_empty requester_id
    then some "teleop_requester_id_required"
    else if not (view.teleop_holder_id == requester_id)
    then some "teleop_control_not_holder"
    else if not (is_empty view.teleop_lease_id) && is_empty lease_id
    then some "teleop_control_lease_required"
    else if not (is_empty view.teleop_lease_id) && not (view.teleop_lease_id == lease_id)
    then some "teleop_control_lease_mismatch"
    else none

unfoldable pub teleop_control_is_active : View → Bool
teleop_control_is_active view = view.teleop_active && view.active_source == "teleop"

-- What a number does that is assigned to a 16-bit field of a message: `none` where the generated class
-- raises.
abbrev pub Assigned : Type 0
Assigned = ℤ → Option ℕ

-- How `handle_servo_command` ends: the message that is published, the `TeleopControlRejectedException`
-- with its reason, or another exception.
pub data Handled : Type 0 where
  published : MotionCommand → Handled
  rejected : String → Handled
  failed : Handled

abbrev pub handled_of : Option MotionCommand → Handled
handled_of none = failed
handled_of (some msg) = published msg

abbrev pub unless_rejected : Option String → Handled → Handled
unless_rejected none next = next
unless_rejected (some reason) next = rejected reason

abbrev pub with_values : Run ℕ → Run ℕ → (ℕ → ℕ → Handled) → Handled
with_values (done position) (done duration_ms) next = next position duration_ms
with_values (done position) _ next = failed
with_values _ _ next = failed

module _ (assigned : Assigned) where
  unfoldable pub build_motion_command :
      ParsedCommand → ℕ → String → ℕ → Context → Option MotionCommand
  unfolding motion_value_encoding
  build_motion_command command position value_encoding duration_ms context =
      Option.map
        (λ servo_id. record {
          servo_type = command.servo_type;
          servo_id = servo_id;
          position = position;
          value_encoding =
              or_else (lower (strip value_encoding)) (motion_value_encoding command.servo_type);
          duration_ms = duration_ms;
          requester_id = context.requester_id;
          lease_id = context.lease_id;
        })
        (assigned command.servo_id)

  unfoldable pub checked_command : View → ParsedCommand → Context → ℕ → ℕ → Handled
  unfolding build_motion_command teleop_rejection_reason
  checked_command view command context position duration_ms =
      let encoding = lower (strip command.value_encoding) in
      unless_rejected (teleop_rejection_reason view context.requester_id context.lease_id) (
        handled_of (
          build_motion_command command position
            (or_else encoding (motion_value_encoding command.servo_type)) duration_ms context))

  unfoldable pub handle_servo_command : View → ParsedCommand → Context → Handled
  unfolding checked_command
  handle_servo_command view command context =
      with_values
        (normalize_motion_position command.servo_type command.position command.value_encoding)
        (resolve_command_duration command.duration_ms command.duration_ms)
        (checked_command view command (stripped_context context))

pub record TeleopControl : Type 0 where
  pub action : String
  pub requester_id : String
  pub lease_id : String

unfoldable pub teleop_control : String → Context → TeleopControl
teleop_control action context = record {
  action = action;
  requester_id = strip context.requester_id;
  lease_id = strip context.lease_id;
}

-- The message that a heartbeat, a claim and a release publish.
unfoldable pub handle_heartbeat : View → Context → Option TeleopControl
unfolding teleop_control_is_active teleop_control
handle_heartbeat view context =
    if teleop_control_is_active view then some (teleop_control "keepalive" context) else none

pub record TeleopAck : Type 0 where
  pub requester_id : String
  pub teleop_lease_id : String
  pub known_holder_matches : Bool
  pub known_lease_matches : Bool
  pub known_teleop_active : Bool

unfoldable pub teleop_ack_payload : View → Context → TeleopAck
teleop_ack_payload view context =
    let requester = strip context.requester_id in
    let lease = strip context.lease_id in
    record {
      requester_id = requester;
      teleop_lease_id = view.teleop_lease_id;
      known_holder_matches = not (is_empty requester) && view.teleop_holder_id == requester;
      known_lease_matches = not (is_empty lease) && view.teleop_lease_id == lease;
      known_teleop_active = view.teleop_active;
    }

unfoldable pub handle_teleop_claim : View → Context → TeleopControl × TeleopAck
unfolding teleop_control teleop_ack_payload
handle_teleop_claim view context = (teleop_control "claim" context, teleop_ack_payload view context)

unfoldable pub handle_teleop_release : View → Context → TeleopControl × TeleopAck
unfolding teleop_control teleop_ack_payload
handle_teleop_release view context =
    (teleop_control "release" context, teleop_ack_payload view context)

pub record Status : Type 0 where
  pub movement_active : Bool
  pub listening : Bool
  pub action : String
  pub led_state : String

-- `current_status` of a status snapshot.
unfoldable pub current_status : View → Status
current_status view =
    let moving = view.teleop_active || view.motion_active || view.task_active in
    record {
      movement_active = moving;
      listening = view.active_source == "teleop";
      action = or_else view.mode "idle";
      led_state = if view.estop_active then "red" else if moving then "green" else "off";
    }
