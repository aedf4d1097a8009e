-- ===== src/Router/Route.antt =====
-- `_on_command` and `_update_registry` of `BusProtocolRouter`. `id_to_port` is the map that the
-- constructor builds, and `ports` the ports that have publishers, one for each of the two protocols.
-- `save_cache` writes a file and is left out. The test on the servo's type is the driver's.
use robot_runtime.Prelude.{
  List, Option, String, contains, false, if◌then◌else◌, nat_eq, none, not, some, string_eq, ℕ, ◌&&◌,
}
use robot_runtime.Driver.Move.{ServoCommand, is_bus_command}
use robot_runtime.Prelude.Int.{int_eq, pos, ℤ}
use robot_runtime.Router.Probing.{Probes, schedule_runtime_probe}
use robot_runtime.Router.Registry.{Registry, find, get_protocol, is_valid_protocol, set_protocol}
use robot_runtime.SafetyLatch.Latch.{Latch, admit, ros_time_to_ns}

pub record Router : Type 0 where
  pub id_to_port : List (ℤ × String)
  pub ports : List String
  pub registry : Registry
  pub safety_latch : Latch
  pub probes : Probes

-- `_publish_to_route`: the port and the protocol of the publisher, where there is one.
unfoldable pub publish_to_route : String → String → Router → Option (String × String)
unfolding contains is_valid_protocol
publish_to_route port protocol r =
    if contains port r.ports && is_valid_protocol protocol then some (port, protocol) else none

unfoldable pub schedule_unknown : ℤ → ℕ → Router → Router
schedule_unknown sid now r = record r { probes = (schedule_runtime_probe sid now r.probes).0 }

-- What follows when the port is known: an unknown protocol is probed, a known one is used if the latch
-- lets the command through.
unfoldable pub route_to :
    String → Option String → ServoCommand → ℕ → Router → Router × Option (String × String)
route_to port none msg now r = (schedule_unknown (pos msg.servo_id) now r, none)
route_to port (some protocol) msg now r =
    if not (admit (ros_time_to_ns msg.stamp) false (pos 0) r.safety_latch).1
    then (r, none)
    else (r, publish_to_route port protocol r)

unfoldable pub route_known :
    Option String → ServoCommand → ℕ → Router → Router × Option (String × String)
unfolding route_to
route_known none msg now r = (r, none)
route_known (some port) msg now r =
    route_to port (get_protocol (pos msg.servo_id) r.registry).0 msg now r

unfoldable pub on_servo_command : ServoCommand → ℕ → Router → Router × Option (String × String)
unfolding route_known
on_servo_command msg now r =
    if not (is_bus_command msg.servo_type)
    then (r, none)
    else route_known (find (pos msg.servo_id) r.id_to_port) msg now r

unfoldable pub update_registry : ℤ → String → String → Router → Router
update_registry sid protocol source r = record r {
  registry = set_protocol sid protocol source r.registry;
}
