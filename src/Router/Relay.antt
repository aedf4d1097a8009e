-- ===== src/Router/Relay.antt =====
-- `_handle_driver_safety` and `_on_driver_safety` of `BusProtocolRouter`. The service holds the command
-- lock for its whole body, and the topic's handler for its call of the latch.
-- `call` is `_call_driver_safety` at the request's fields: whether the driver of a port applied it.
-- The map of ports does not change after the start. Each use of the clock is an argument.
use robot_runtime.Prelude.{
  Bool, List, Option, String, [], false, if◌then◌else◌, not, true, ◌&&◌, ◌∷◌,
}
use robot_runtime.Prelude.Int.{ℤ}
use robot_runtime.Router.Route.{Router}
use robot_runtime.SafetyLatch.Latch.{Latch, Time, observe_authority, ros_time_to_ns}

pub record SafetyRequest : Type 0 where
  pub estop_active : Bool
  pub stamp : Option Time

pub record SafetyResponse : Type 0 where
  pub success : Bool
  pub reason : String

-- `if unused_ids`
unfoldable pub has_servos : List ℤ → Bool
has_servos [] = false
has_servos (sid ∷ sids) = true

-- `all(applied_results)`
unfoldable pub all_true : List Bool → Bool
all_true [] = true
all_true (x ∷ xs) = x && all_true xs

module _ (call : String → Bool) where
  unfoldable pub applied_results : List (String × List ℤ) → List Bool
  applied_results [] = []
  applied_results (item ∷ items) =
      let rest = applied_results items in if has_servos item.1 then call item.0 ∷ rest else rest

  -- The latch after a stop and before the calls.
  unfoldable pub stop_first : ℤ → SafetyRequest → Latch → Latch
  stop_first now request l =
      if request.estop_active
      then (observe_authority true (ros_time_to_ns request.stamp) now l).0
      else l

  -- The latch after the calls.
  unfoldable pub release_last : Bool → ℤ → SafetyRequest → Latch → Latch
  release_last all_applied now request l =
      if all_applied && not request.estop_active
      then (observe_authority false (ros_time_to_ns request.stamp) now l).0
      else l

  unfoldable pub relay_driver_safety :
      List (String × List ℤ) → ℤ → ℤ → SafetyRequest → Router → Router × SafetyResponse
  unfolding stop_first release_last all_true
  relay_driver_safety port_items now later request r =
      let all_applied = all_true (applied_results port_items) in
      let latch = release_last all_applied later request (stop_first now request r.safety_latch) in
      let success =
        all_applied && (if request.estop_active then latch.latched else not latch.latched) in
      (
        record r { safety_latch = latch },
        record { success = success; reason = if success then "" else "driver_safety_not_applied" },
      )

-- `_on_driver_safety`: the message of the topic goes to the latch, and to no driver.
unfoldable pub on_driver_safety : ℤ → SafetyRequest → Router → Router
on_driver_safety now msg r = record r {
  safety_latch =
      (observe_authority msg.estop_active (ros_time_to_ns msg.stamp) now r.safety_latch).0;
}

-- The two ways by which driver safety reaches the router.
pub data SafetyInput : Type 0 where
  by_service : SafetyRequest → SafetyInput
  by_topic : SafetyRequest → SafetyInput

unfoldable pub receive_safety :
    (String → Bool) → List (String × List ℤ) → ℤ → ℤ → SafetyInput → Router → Router
unfolding relay_driver_safety on_driver_safety
receive_safety call port_items now later (by_service request) r =
    (relay_driver_safety call port_items now later request r).0
receive_safety call port_items now later (by_topic msg) r = on_driver_safety now msg r
