-- ===== src/Router/Tests.antt =====
-- The router's theorems at concrete commands.
use robot_runtime.Prelude.{
  ◌↔◌, Option, Bool, List, String, ◌==◌, [], contains, false, if◌then◌else◌, lower, nat_eq, strip,
  none, refl, some, string_eq, true, ◌+◌, ◌∷◌, ◌≡◌,
}
use robot_runtime.Driver.Move.{ServoCommand, is_bus_command}
use robot_runtime.Prelude.Int.{int_eq, pos, ℤ, ◌<ℤ◌, ◌+ℤ◌, ◌-ℤ◌}
use robot_runtime.Router.Pending.{occurrences, probes_never_overlap}
use robot_runtime.Router.Probing.{
  Probes, after, at_start, schedule_runtime_probe, scheduled, take_probe, taken,
}
use robot_runtime.Router.Registry.{
  Registry, is_valid_protocol, by_priority, cached_protocol, find, match_ranges, get_protocol,
  given, range_protocol,
}
use robot_runtime.Router.Route.{Router, on_servo_command, publish_to_route}
use robot_runtime.Router.Routed.{IsDelivery, commands_are_routed}
use robot_runtime.Driver.Execute.{Request, Response}
use robot_runtime.Router.Learned.{IsFromServo, read_learns}
use robot_runtime.Router.Service.{
  ReadResponse, first_success, resolve_protocol_order, route_read_position,
}
use robot_runtime.Router.Relay.{
  SafetyRequest, applied_results, by_service, has_servos, receive_safety, relay_driver_safety,
}
use robot_runtime.Router.Relayed.{IsAcknowledged, release_opens_iff}
use robot_runtime.SafetyLatch.Latch.{admit, observe_authority, ros_time_to_ns}

abbrev by_ranges : Registry
by_ranges = record {
  manual_map = (pos 30, "zl") ∷ [];
  cache_map = [];
  lx_ranges = (pos 21, pos 34) ∷ [];
  zl_ranges = [];
}

abbrev idle_probes : Probes
idle_probes = record {
  enabled = true;
  interval = 3;
  last_attempt = [];
  pending = [];
  queue = [];
  running = [];
}

abbrev one_queued : Probes
one_queued = (schedule_runtime_probe (pos 40) 9 idle_probes).0

probes_never_overlap_example :
    occurrences (pos 40) (take_probe one_queued).queue
      + occurrences (pos 40) (take_probe one_queued).running
    ≡ (if contains (pos 40) (take_probe one_queued).pending then 1 else 0)
probes_never_overlap_example = probes_never_overlap true 3 (take_probe one_queued) (pos 40) (
    after one_queued (take_probe one_queued)
      (after idle_probes one_queued at_start (scheduled idle_probes (pos 40) 9)) (taken one_queued))

abbrev router : Router
router = record {
  id_to_port = (pos 21, "/dev/ttyAMA0") ∷ [];
  ports = "/dev/ttyAMA0" ∷ [];
  registry = by_ranges;
  safety_latch = record { latched = false; fence_ns = pos 0; last_authority_ns = pos 0 };
  probes = idle_probes;
}

abbrev to_ankle : ServoCommand
to_ankle = record {
  servo_type = "bus";
  servo_id = 21;
  position = pos 1500;
  speed = pos 200;
  stamp = none;
}

commands_are_routed_example : IsDelivery to_ankle router ("/dev/ttyAMA0", "lx")
unfolding on_servo_command is_bus_command lower strip find get_protocol by_priority given
    cached_protocol range_protocol match_ranges admit publish_to_route
commands_are_routed_example = commands_are_routed to_ankle 5 router ("/dev/ttyAMA0", "lx") refl

-- Two ports, one of them without servos, so that its driver is not asked.
abbrev two_ports : List (String × List ℤ)
two_ports = ("/dev/ttyAMA0", pos 21 ∷ []) ∷ ("/dev/ttyAMA1", []) ∷ []

abbrev first_applies : String → Bool
first_applies port = port == "/dev/ttyAMA0"

abbrev stop_request : SafetyRequest
stop_request = record { estop_active = true; stamp = some (record { sec = pos 5; nanosec = 0 }) }

abbrev release_request : SafetyRequest
release_request = record {
  estop_active = false;
  stamp = some (record { sec = pos 6; nanosec = 0 });
}

abbrev stopped : Router
stopped = (relay_driver_safety first_applies two_ports (pos 1) (pos 2) stop_request router).0

release_opens_iff_example :
    ((receive_safety first_applies two_ports
        (pos 3)
        (pos 4)
        (by_service release_request)
        stopped).safety_latch.latched
      ≡ false)
    ↔ ((release_request.estop_active ≡ false)
        × (stopped.safety_latch.fence_ns <ℤ ros_time_to_ns release_request.stamp)
        × (stopped.safety_latch.last_authority_ns <ℤ ros_time_to_ns release_request.stamp)
        × IsAcknowledged first_applies two_ports (by_service release_request))
unfolding relay_driver_safety applied_results has_servos observe_authority ros_time_to_ns ◌+ℤ◌ ◌-ℤ◌
release_opens_iff_example =
    release_opens_iff first_applies two_ports (pos 3) (pos 4) (by_service release_request) stopped
      refl

-- The servo 21 answers for "zl" only; the ranges would have it as "lx".
abbrev zl_answers : String → String → Option ReadResponse
zl_answers port protocol =
    if protocol == "zl"
    then some (record { success = true; position = pos 1500; answered_by = "zl"; error_code = 0 })
    else none

read_learns_example :
    IsFromServo zl_answers
      (pos 21)
      router
      (route_read_position zl_answers (pos 21) "" router).0
      (route_read_position zl_answers (pos 21) "" router).1
unfolding route_read_position find first_success resolve_protocol_order is_valid_protocol lower
    strip get_protocol by_priority given cached_protocol range_protocol match_ranges
read_learns_example = read_learns zl_answers (pos 21) "" router refl

abbrev all_executed : String → String → Option Response
all_executed port protocol = some (record {
  success = true;
  answered_by = protocol;
  error_code = 0;
  value = pos 0;
  values = [];
  raw = [];
})

abbrev move_request : Request
move_request = record {
  servo_id = 21;
  protocol = "lx";
  command = "move_time_write";
  params = pos 500 ∷ pos 100 ∷ [];
  stamp = none;
}
