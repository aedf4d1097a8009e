-- ===== src/Router/Service.antt =====
-- The services of `BusProtocolRouter` for positions and commands: `_resolve_protocol_order`,
-- `_handle_read_position`, `_handle_execute_command` and `_handle_execute_command_unlocked`. `call` is
-- `_call_read_position` or `_call_execute_command` at the request's fields: what the driver of a port
-- answers for a protocol, and `none` on a timeout. The texts of messages and results are left out.
use robot_runtime.Prelude.{
  Bool, List, Option, String, [], false, if◌then◌else◌, is_empty, lower, nat_eq, none, not, some,
  string_eq, strip, true, ℕ, ◌==◌, ◌||◌, ◌∷◌,
}
use robot_runtime.Driver.Execute.{Request, Response, execute_error}
use robot_runtime.Prelude.Int.{pos, ℤ}
use robot_runtime.Router.Registry.{Registry, find, get_protocol, is_valid_protocol}
use robot_runtime.Router.Route.{Router, update_registry}
use robot_runtime.SafetyLatch.Latch.{admit_protocol_command, ros_time_to_ns}
use robot_runtime.SafetyLatch.Names.{is_motion_command, is_stop_command}

-- The order by what the registry gives.
unfoldable pub known_order : Option String → List String
known_order none = "lx" ∷ "zl" ∷ []
known_order (some protocol) =
    if is_valid_protocol protocol
    then protocol ∷ (if protocol == "lx" then "zl" else "lx") ∷ []
    else "lx" ∷ "zl" ∷ []

unfoldable pub resolve_protocol_order : String → ℤ → Registry → List String
unfolding known_order
resolve_protocol_order requested sid registry =
    let protocol = lower (strip requested) in
    if is_valid_protocol protocol then protocol ∷ [] else known_order (get_protocol sid registry).0

-- The loop over the protocols, up to the first answer that is a success.
module _ {A : Type 0} (is_success : A → Bool) (call : String → Option A) where
  -- One round, with the answer and with what the rounds after it give.
  unfoldable pub first_or : String → Option A → Option (String × A) → Option (String × A)
  first_or protocol none rest = rest
  first_or protocol (some resp) rest = if is_success resp then some (protocol, resp) else rest

  unfoldable pub first_success : List String → Option (String × A)
  unfolding first_or
  first_success [] = none
  first_success (protocol ∷ protocols) = first_or protocol (call protocol) (first_success protocols)

pub record ReadResponse : Type 0 where
  pub success : Bool
  pub position : ℤ
  pub answered_by : String
  pub error_code : ℕ

abbrev pub read_succeeds : ReadResponse → Bool
read_succeeds resp = resp.success

unfoldable pub read_error : ℕ → ReadResponse
read_error error_number = record {
  success = false;
  position = pos 0;
  answered_by = "";
  error_code = error_number;
}

unfoldable pub read_answer : ℤ → Option (String × ReadResponse) → Router → Router × ReadResponse
unfolding read_error
read_answer sid none r = (r, read_error 1)
read_answer sid (some answered) r = (
  update_registry sid answered.0 "read_service" r,
  record {
    success = true;
    position = answered.1.position;
    answered_by = answered.0;
    error_code = 0;
  },
)

-- What follows when the port is known or not.
unfoldable pub read_at :
    (String → String → Option ReadResponse)
    → Option String
    → ℤ
    → String
    → Router
    → Router × ReadResponse
unfolding read_error read_answer
read_at call none sid requested r = (r, read_error 2)
read_at call (some port) sid requested r =
    let protocols = resolve_protocol_order requested sid r.registry in
    read_answer sid (first_success read_succeeds (call port) protocols) r

unfoldable pub route_read_position :
    (String → String → Option ReadResponse) → ℤ → String → Router → Router × ReadResponse
unfolding read_at
route_read_position call sid requested r =
    read_at call (find sid r.id_to_port) sid (lower (strip requested)) r

abbrev pub execute_succeeds : Response → Bool
execute_succeeds resp = resp.success

unfoldable pub execute_answer : String → ℤ → Option (String × Response) → Router → Router × Response
execute_answer requested sid none r = (r, execute_error requested 1)
execute_answer requested sid (some answered) r = (
  update_registry sid answered.0 "execute_service" r,
  record answered.1 { answered_by = answered.0 },
)

module _ (call : String → String → Option Response) where
  unfoldable pub execute_at : Option String → String → ℤ → Router → Router × Response
  execute_at none requested sid r = (r, execute_error requested 2)
  execute_at (some port) requested sid r =
      let protocols = resolve_protocol_order requested sid r.registry in
      execute_answer requested sid (first_success execute_succeeds (call port) protocols) r

  unfoldable pub route_execute_unlocked : Request → Router → Router × Response
  unfolding execute_at
  route_execute_unlocked request r =
      let requested = lower (strip request.protocol) in
      if is_empty (strip request.command)
      then (r, execute_error requested 2)
      else execute_at (find (pos request.servo_id) r.id_to_port) requested (pos request.servo_id) r

  unfoldable pub route_execute_command : ℤ → Request → Router → Router × Response
  route_execute_command now request r =
      let (latch, admitted) =
        admit_protocol_command request.command now (ros_time_to_ns request.stamp) r.safety_latch in
      let next = record r { safety_latch = latch } in
      if not (is_stop_command request.command || is_motion_command request.command)
      then route_execute_unlocked request r
      else if not admitted
      then (next, execute_error (lower (strip request.protocol)) 11)
      else route_execute_unlocked request next
