-- ===== src/Manager/State.antt =====
-- The fields of `ExecutionManagerNode` that change, the registration of stop operations, and the stamps
-- of driver safety. Nanoseconds of the node's clock are natural numbers. Where the code holds
-- `arbitrator_lock`, a function is one step.
use robot_runtime.Prelude.{
  Bool, List, String, [], discard, if◌then◌else◌, ltb, max, nat_eq, not, string_eq, ℕ, ◌%◌, ◌+◌,
  ◌/◌, ◌==◌, ◌∷◌,
}
use robot_runtime.Arbitrator.State.{Arbitrator, Config, new}
use robot_runtime.Manager.Service.{no_items}
use robot_runtime.Prelude.Int.{int_eq, pos}
use robot_runtime.SafetyLatch.Latch.{Time}

pub record Manager : Type 0 where
  pub arbitrator : Arbitrator
  pub known_bus_actuator_ids : List ℕ
  pub next_stop_operation_id : ℕ
  pub active_stop_operation_ids : List ℕ
  pub latched_stop_fault_reason : String
  pub last_driver_safety_stamp_ns : ℕ

unfoldable pub new_manager : Config → Manager
new_manager config = record {
  arbitrator = new config;
  known_bus_actuator_ids = [];
  next_stop_operation_id = 1;
  active_stop_operation_ids = [];
  latched_stop_fault_reason = "";
  last_driver_safety_stamp_ns = 0;
}

-- `set.add`: a set of numbers is a list in rising order, so `sorted` leaves it as it is.
unfoldable pub add_id : ℕ → List ℕ → List ℕ
add_id id [] = id ∷ []
add_id id (x ∷ xs) =
    let rest = add_id id xs in
    if ltb id x then id ∷ x ∷ xs else if id == x then x ∷ xs else x ∷ rest

unfoldable pub register_stop_operation : Manager → Manager × ℕ
register_stop_operation m = (
  record m {
    next_stop_operation_id = m.next_stop_operation_id + 1;
    active_stop_operation_ids = m.next_stop_operation_id ∷ m.active_stop_operation_ids;
  },
  m.next_stop_operation_id,
)

abbrev pub has_operations : Manager → Bool
has_operations m = not (no_items m.active_stop_operation_ids)

unfoldable pub drop_operation : ℕ → Manager → Manager
unfolding discard
drop_operation id m = record m {
  active_stop_operation_ids = discard id m.active_stop_operation_ids;
}

-- The stamp in nanoseconds.
unfoldable pub next_driver_safety_stamp : ℕ → Manager → Manager × ℕ
next_driver_safety_stamp now_ns m =
    let stamp_ns = max now_ns (m.last_driver_safety_stamp_ns + 1) in
    (record m { last_driver_safety_stamp_ns = stamp_ns }, stamp_ns)

-- The two fields of the message's time.
unfoldable pub time_of_ns : ℕ → Time
time_of_ns ns = record { sec = pos (ns / 1000000000); nanosec = ns % 1000000000 }

pub record DriverSafetyState : Type 0 where
  pub estop_active : Bool
  pub reason : String
  pub stamp_ns : ℕ
