-- ===== src/Router/Routed.antt =====
-- Where the router sends a command.
use mathlib.Core.Path.{subst}
use robot_runtime.Prelude.{
  Bool-cases, Option, String, ap, arith, contains, eq_iff, false, inl, inr, nat_eq, none, refl,
  some, string_eq, true, ℕ, ◌&&◌, ◌∙◌, ◌≡◌, ◌⊎◌,
}
use robot_runtime.Driver.Move.{ServoCommand, is_bus_command}
use robot_runtime.Prelude.Int.{int_eq, pos, ◌<ℤ◌}
use robot_runtime.Router.Registry.{find, get_protocol, is_valid_protocol}
use robot_runtime.Router.Route.{Router, on_servo_command, publish_to_route, route_known, route_to}
use robot_runtime.SafetyLatch.Fence.{admit_motion_facts}
use robot_runtime.SafetyLatch.Latch.{admit, admit_motion, ros_time_to_ns}

-- The command is for a bus servo, its port is the servo's, the protocol is the registry's and one of
-- the two, and the latch is open, with the stamp behind its fence where there is one.
pub record IsDelivery (msg : ServoCommand) (r : Router) (route : String × String) : Type 0 where
  pub bus : is_bus_command msg.servo_type ≡ true
  pub port : find (pos msg.servo_id) r.id_to_port ≡ some route.0
  pub protocol : (get_protocol (pos msg.servo_id) r.registry).0 ≡ some route.1
  pub valid : (route.1 ≡ "zl") ⊎ (route.1 ≡ "lx")
  pub unlatched : r.safety_latch.latched ≡ false
  pub fresh :
      (r.safety_latch.fence_ns ≡ pos 0) ⊎ (r.safety_latch.fence_ns <ℤ ros_time_to_ns msg.stamp)

two_of : (p : String) → is_valid_protocol p ≡ true → (p ≡ "zl") ⊎ (p ≡ "lx")
unfolding is_valid_protocol
two_of p h = ground (arith, eq_iff p "zl", eq_iff p "lx")

published :
    (port protocol : String) (r : Router) (route : String × String)
    → publish_to_route port protocol r ≡ some route
    → (port ≡ route.0) × (protocol ≡ route.1) × ((protocol ≡ "zl") ⊎ (protocol ≡ "lx"))
unfolding publish_to_route is_valid_protocol
published port protocol r route h =
    elim (Bool-cases (contains port r.ports && is_valid_protocol protocol)) [
      | inl there ↦
          let found : some (port, protocol) ≡ some route = rw there at h in
          let same : (port, protocol) ≡ route = cc in
          (ap (λ x. x.0) same, ap (λ x. x.1) same, two_of protocol (ground arith))
      | inr missing ↦ absurd (let nothing : none ≡ some route = rw missing at h in cc)
    ]

module _ (msg : ServoCommand) (now : ℕ) (r : Router) (route : String × String) where
  routed_to :
      (port : String) (protocol : Option String)
      → is_bus_command msg.servo_type ≡ true
      → find (pos msg.servo_id) r.id_to_port ≡ some port
      → (get_protocol (pos msg.servo_id) r.registry).0 ≡ protocol
      → (route_to port protocol msg now r).1 ≡ some route
      → IsDelivery msg r route
  unfolding route_to admit
  routed_to port none bus_type known p h = cc
  routed_to port (some protocol) bus_type known p h =
      elim (Bool-cases (admit_motion (ros_time_to_ns msg.stamp) r.safety_latch)) [
        | inl accepted ↦
            let (is_open, behind) =
              admit_motion_facts (ros_time_to_ns msg.stamp) r.safety_latch accepted in
            let (same_port, same_protocol, is_valid) =
              published port protocol r route (rw accepted at h) in
            record {
              bus = bus_type;
              port = known ∙ ap some same_port;
              protocol = p ∙ ap some same_protocol;
              valid = subst (λ x. (x ≡ "zl") ⊎ (x ≡ "lx")) same_protocol is_valid;
              unlatched = is_open;
              fresh = behind;
            }
        | inr refused ↦ absurd (let nothing : none ≡ some route = rw refused at h in cc)
      ]

  routed_known :
      (port : Option String)
      → is_bus_command msg.servo_type ≡ true
      → find (pos msg.servo_id) r.id_to_port ≡ port
      → (route_known port msg now r).1 ≡ some route
      → IsDelivery msg r route
  unfolding route_known
  routed_known none bus_type known h = cc
  routed_known (some port) bus_type known h =
      routed_to port (get_protocol (pos msg.servo_id) r.registry).0 bus_type known refl h

-- A command is published to one port and protocol at most: for a bus servo, to the servo's own port,
-- with the protocol that the registry gives, which is one of the two, and only past the router's
-- latch: it is open, and the stamp is behind the fence where there is one.
pub commands_are_routed :
    (msg : ServoCommand) (now : ℕ) (r : Router) (route : String × String)
    → (on_servo_command msg now r).1 ≡ some route
    → IsDelivery msg r route
unfolding on_servo_command
commands_are_routed msg now r route h = elim (Bool-cases (is_bus_command msg.servo_type)) [
  | inl bus_type ↦
      routed_known msg now r route (find (pos msg.servo_id) r.id_to_port) bus_type refl
        (rw bus_type at h)
  | inr other ↦ absurd (let nothing : none ≡ some route = rw other at h in cc)
]
