-- ===== src/Driver/Move.antt =====
-- Moves from the topics: `_is_bus_command`, `_admit_move`, `_is_allowed_id`,
-- `_normalize_move_target`, `_execute_move` and its callers, and the safety service. The lock of the
-- safety commands is held around admission and move, so a message is handled as a whole. What a
-- handler does to the world is its result: the frame that is given to the port and the state that is
-- published.
use robot_runtime.Prelude.{
  Bool, List, Option, String, [], contains, false, if◌then◌else◌, lower, min, nat_eq, none, not,
  some, string_eq, strip, true, ℕ, ◌==◌, ◌∷◌,
}
use robot_runtime.Driver.Convert.{move_target_lx, move_target_zl, position_to_pulse}
use robot_runtime.Lx.Encode.{encode_move_command}
use robot_runtime.Lx.Words.{clamp}
use robot_runtime.Prelude.Int.{ltb_ℤ, pos, ℤ}
use robot_runtime.SafetyLatch.Latch.{Latch, Time, admit, observe_authority, ros_time_to_ns}
use robot_runtime.Zl.Encode.{zl_encode_move_command}
use mathlib.Core.Option

pub record Driver : Type 0 where
  pub zl_servo_ids : List ℕ
  pub lx_servo_ids : List ℕ
  pub default_speed : ℤ
  pub safety_latch : Latch

pub record ServoCommand : Type 0 where
  pub servo_type : String
  pub servo_id : ℕ
  pub position : ℤ
  pub speed : ℤ
  pub stamp : Option Time

pub record ServoState : Type 0 where
  pub state_id : ℕ
  pub state_position : ℕ
  pub error_code : ℕ

-- What one move does: the frame, and the state for the port's answer to the write.
pub record Sent : Type 0 where
  pub frame : List ℕ
  pub published : Bool → ServoState

abbrev bus_types : List String
bus_types = "" ∷ "bus" ∷ "bus_servo" ∷ "bus_zl" ∷ "bus_lx" ∷ "zl" ∷ "lx" ∷ []

unfoldable pub is_bus_command : String → Bool
unfolding contains
is_bus_command servo_type = contains (lower (strip servo_type)) bus_types

-- The two sets keep the identifiers above 0; an empty set allows all.
unfoldable pub allows : List ℕ → ℕ → Bool
unfolding contains
allows [] servo_id = true
allows (id ∷ ids) servo_id = contains servo_id (id ∷ ids)

unfoldable pub is_allowed_id : String → ℕ → Driver → Bool
unfolding allows
is_allowed_id protocol servo_id d =
    if protocol == "zl"
    then allows d.zl_servo_ids servo_id
    else if protocol == "lx"
    then allows d.lx_servo_ids servo_id
    else false

unfoldable pub normalize_move_target : String → ℤ → ℕ × ℕ
normalize_move_target protocol position =
    if protocol == "lx"
    then move_target_lx position
    else if protocol == "zl"
    then move_target_zl position
    else (position_to_pulse position, position_to_pulse position)

-- `self.protocols[protocol].encode_move_command`: `none` is the missing key's exception, which the
-- callers catch.
unfoldable pub encode_move : String → ℕ → ℕ → ℕ → Option (List ℕ)
encode_move protocol servo_id position speed =
    if protocol == "lx"
    then some (encode_move_command (pos servo_id) (pos position) (pos speed))
    else if protocol == "zl"
    then some (zl_encode_move_command (pos servo_id) (pos position) (pos speed))
    else none

-- `_publish_state`
unfoldable pub state_of : ℕ → ℕ → ℕ → ServoState
state_of servo_id pulse error_code = record {
  state_id = servo_id;
  state_position = min 65535 pulse;
  error_code = min 255 error_code;
}

unfoldable pub execute_move : String → ℕ → ℤ → ℤ → Driver → Option Sent
unfolding state_of
execute_move protocol servo_id position speed d =
    if not (is_allowed_id protocol servo_id d)
    then none
    else let (target, pulse) = normalize_move_target protocol position in
      Option.map
        (λ frame. record {
          frame = frame;
          published = λ success. state_of servo_id pulse (if success then 0 else 1);
        })
        (encode_move protocol servo_id target (clamp 0 30000 speed))

-- `_on_lx_command` and `_on_zl_command` differ in the protocol only. `_admit_move` is `admit` of a
-- command that is no stop, which leaves the latch as it is.
unfoldable pub on_command : String → ServoCommand → Driver → Option Sent
on_command protocol msg d =
    if not (is_bus_command msg.servo_type)
    then none
    else if not (admit (ros_time_to_ns msg.stamp) false (pos 0) d.safety_latch).1
    then none
    else execute_move protocol msg.servo_id msg.position
        (if ltb_ℤ (pos 0) msg.speed then msg.speed else d.default_speed) d

unfoldable pub on_lx_command : ServoCommand → Driver → Option Sent
unfolding on_command
on_lx_command msg d = on_command "lx" msg d

unfoldable pub on_zl_command : ServoCommand → Driver → Option Sent
unfolding on_command
on_zl_command msg d = on_command "zl" msg d

unfoldable pub on_driver_safety : Bool → Option Time → ℤ → Driver → Driver
on_driver_safety active stamp now d = record d {
  safety_latch = (observe_authority active (ros_time_to_ns stamp) now d.safety_latch).0;
}

-- `response.success` with the driver; the reason is empty or 'stale_safety_state' by it.
unfoldable pub handle_driver_safety : Bool → Option Time → ℤ → Driver → Driver × Bool
unfolding on_driver_safety
handle_driver_safety active stamp now d =
    let next = on_driver_safety active stamp now d in
    (next, if next.safety_latch.latched then active else not active)
