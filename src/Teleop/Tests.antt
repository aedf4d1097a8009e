-- ===== src/Teleop/Tests.antt =====
-- The bridge's theorems at a client that holds teleop.
use robot_runtime.Arbitrator.Estop.{snapshot}
use robot_runtime.Lx.Words.{clamp}
use robot_runtime.Prelude.{
  List, String, [], arith, contains, eq_iff, none, refl, some, strip, true, ℕ, ◌∷◌, ◌≡◌, ◌≢◌, ◌↔◌,
  lower, string_eq,
}
use robot_runtime.Arbitrator.Command.{receive}
use robot_runtime.Arbitrator.Refresh.{is_teleop_control_active, within, refresh_mode}
use robot_runtime.Arbitrator.State.{Config, configure, new, teleop}
use robot_runtime.Driver.Move.{ServoCommand}
use robot_runtime.Manager.Commands.{MotionCommand}
use robot_runtime.Manager.Handlers.{handle_command}
use robot_runtime.Manager.Published.{publish_state, source_text}
use robot_runtime.Manager.State.{Manager, new_manager}
use robot_runtime.Prelude.Int.{negsuc, pos, ℤ, ◌≤ℤ◌}
use robot_runtime.SafetyLatch.Latch.{Time}
use robot_runtime.Teleop.Allowed.{bridge_agrees}
use robot_runtime.Teleop.Armed.{broadcast_arms_holder, heartbeat_loses_lease}
use robot_runtime.Teleop.Bounded.{parsed_commands_are_bounded}
use robot_runtime.Teleop.Bridge.{
  Assigned, Context, View, handle_servo_command, no_view, published, teleop_control,
  teleop_rejection_reason, view_of,
}
use robot_runtime.Teleop.Position.{
  normalize_motion_position, coerce_float, resolve_command_duration,
}
use robot_runtime.Teleop.Driven.{driven_commands_arrive}
use robot_runtime.Teleop.Extended.{extensions_get_their_messages, registered_after}
use robot_runtime.Teleop.Formats.{parse_servo_control}
use robot_runtime.Teleop.Granted.{
  Event, connected, leases_are_granted, requested, run, seen_after, state_broadcast, state_came,
  apply,
}
use robot_runtime.Teleop.Json.{
  Json, done, empty_object, field, object, text, whole_number, has_key, int_of, get_or, get_value,
}
use robot_runtime.Teleop.Leases.{AllEarned}
use robot_runtime.Teleop.Messages.{
  explicit_message_type, route_of, to_extension, register_message_handler, is_builtin_message_type,
}
use robot_runtime.Teleop.Parse.{ParsedCommand, resolve_duration_ms}
use robot_runtime.Teleop.Ranges.{IsCommand}
use robot_runtime.Teleop.Server.{
  Client, Server, beat, broadcast_state, client_command, context_of, find_client, new_server,
  process_request, update_execution_state, connect,
}

abbrev config : Config
config = configure (pos 800) (pos 500) (pos 5000) (pos 64) (λ n. "lease") (λ n. "task-lease")

-- `ada` holds teleop since 1000.
abbrev driven : Manager
driven = record (new_manager config) {
  arbitrator = record (new config) {
    teleop = record { holder_id = "ada"; lease_id = "lease-1"; last_time = some 1000 };
  };
}

abbrev context : Context
context = record { requester_id = "ada"; lease_id = " lease-1" }

-- `{"b": -1, "c": 5, "p": 3000, "s": 250}`
abbrev message : Json
message = object (
    field "b" (whole_number (negsuc 0)) (
      field "c" (whole_number (pos 5))
        (field "p" (whole_number (pos 3000)) (field "s" (whole_number (pos 250)) empty_object))))

abbrev command : ParsedCommand
command = record {
  servo_type = "bus";
  servo_id = pos 5;
  position = pos 2500;
  value_encoding = "bus_pulse_us";
  duration_ms = pos 250;
  port = pos 0;
}

message_parses : parse_servo_control message ≡ done (some command)
unfolding parse_servo_control has_key int_of get_or resolve_duration_ms get_value clamp
message_parses = refl

parsed_commands_are_bounded_example : IsCommand command
parsed_commands_are_bounded_example = parsed_commands_are_bounded message command message_parses

lease_is_named :
    is_teleop_control_active 1200 driven.arbitrator ≡ true → driven.arbitrator.teleop.lease_id ≢ ""
unfolding new_manager
lease_is_named h = ground (arith, eq_iff "lease-1" "")

bridge_agrees_example :
    (teleop_rejection_reason
        (view_of (publish_state 1200 driven).1)
        (strip "ada")
        (strip " lease-1")
      ≡ none)
    ↔ ((receive teleop 1200 "ada" " lease-1" driven.arbitrator).0.accepted ≡ true)
bridge_agrees_example = bridge_agrees 1200 "ada" " lease-1" driven lease_is_named

-- A message class that takes every number that is not negative.
abbrev takes : Assigned
takes (pos n) = some n
takes (negsuc n) = none

takes_holds : (n : ℤ) (k : ℕ) → takes n ≡ some k → n ≡ pos k
takes_holds (pos n) k h = cc
takes_holds (negsuc n) k h = absurd (cc)

abbrev motion_command : MotionCommand
motion_command = record {
  servo_type = "bus";
  servo_id = 5;
  position = 2500;
  value_encoding = "bus_pulse_us";
  duration_ms = 250;
  requester_id = "ada";
  lease_id = "lease-1";
}

abbrev clock : Time
clock = record { sec = pos 1; nanosec = 200 }

command_is_handled :
    handle_servo_command takes (view_of (publish_state 1200 driven).1) command context
    ≡ published motion_command
unfolding handle_servo_command normalize_motion_position coerce_float lower strip
    resolve_command_duration view_of publish_state snapshot is_teleop_control_active within
    refresh_mode new configure source_text
command_is_handled = refl

no_operation : driven.active_stop_operation_ids ≡ []
unfolding new_manager
no_operation = refl

driven_commands_arrive_example :
    (sent : ServoCommand) × ((handle_command teleop 1200 clock motion_command
        (publish_state 1200 driven).0).1
      ≡ some sent)
    × (sent.servo_type ≡ "bus")
    × (pos sent.servo_id ≡ pos 5)
    × (command.servo_type ≡ "bus" → sent.position ≡ pos 2500)
    × (pos 1 ≤ℤ sent.speed)
    × (sent.speed ≤ℤ pos 65535)
driven_commands_arrive_example =
    driven_commands_arrive takes 1200 clock driven message command context motion_command
      takes_holds no_operation lease_is_named message_parses command_is_handled

-- The state that names `ada`, and a server with her connection.
abbrev ada_drives : View
ada_drives = record no_view {
  mode = "teleop_active";
  active_source = "teleop";
  teleop_holder_id = "ada";
  teleop_lease_id = "lease-1";
  teleop_active = true;
}

abbrev names : ℕ → String
names n = "ada"

abbrev events : List Event
events =
    connected 3
    ∷ state_came ada_drives
    ∷ state_broadcast 3
    ∷ requested 3 beat
    ∷ state_broadcast 3
    ∷ []

leases_are_granted_example :
    AllEarned (seen_after events (no_view ∷ [])) (run names takes events new_server).clients
leases_are_granted_example = leases_are_granted names takes events

lease_is_kept :
    find_client 3 (run names takes events new_server).clients
    ≡ some (record { id = "ada"; teleop_lease_id = "lease-1" })
unfolding find_client run apply broadcast_state process_request update_execution_state connect
    new_server strip
lease_is_kept = refl

abbrev ada : Client
ada = record { id = "ada"; teleop_lease_id = "lease-1" }

abbrev server : Server
server = record { clients = (3, ada) ∷ []; ids_made = 1; view = ada_drives }

ada_is_connected : find_client 3 server.clients ≡ some ada
unfolding find_client
ada_is_connected = refl

lease_is_stripped : strip server.view.teleop_lease_id ≡ server.view.teleop_lease_id
unfolding strip
lease_is_stripped = refl

broadcast_arms_holder_example :
    (after : Client) × (find_client 3 (broadcast_state 3 server).clients ≡ some after)
    × ((teleop_rejection_reason server.view (strip after.id) (strip after.teleop_lease_id) ≡ none)
        ↔ ((server.view.teleop_active ≡ true)
            × (server.view.active_source ≡ "teleop")
            × (strip ada.id ≢ "")
            × (server.view.teleop_holder_id ≡ strip ada.id)))
broadcast_arms_holder_example =
    broadcast_arms_holder 3 ada server ada_is_connected lease_is_stripped

ada_is_allowed :
    teleop_rejection_reason server.view (strip ada.id) (strip ada.teleop_lease_id) ≡ none
unfolding strip teleop_rejection_reason
ada_is_allowed = refl

lease_is_given : server.view.teleop_lease_id ≢ ""
unfolding no_view
lease_is_given h = ground (arith, eq_iff "lease-1" "")

heartbeat_loses_lease_example :
    ((process_request 3 beat server).1 ≡ some (teleop_control "keepalive" (context_of ada)))
    × ((c : ParsedCommand) (msg : MotionCommand)
        → client_command takes 3 c (process_request 3 beat server).0 ≢ some (published msg))
heartbeat_loses_lease_example =
    heartbeat_loses_lease takes 3 ada server ada_is_connected ada_is_allowed lease_is_given

abbrev dance : Json
dance = object (field "type" (text " Dance") empty_object)

extensions_get_their_messages_example :
    (route_of (registered_after ("heartbeat" ∷ "Dance " ∷ []) []) dance ≡ to_extension "dance") ↔ (
      (explicit_message_type dance ≡ "dance")
      × (contains "dance" (registered_after ("heartbeat" ∷ "Dance " ∷ []) []) ≡ true))
extensions_get_their_messages_example =
    extensions_get_their_messages ("heartbeat" ∷ "Dance " ∷ []) dance "dance"

dance_is_registered : registered_after ("heartbeat" ∷ "Dance " ∷ []) [] ≡ "dance" ∷ []
unfolding registered_after register_message_handler lower strip is_builtin_message_type
dance_is_registered = refl
